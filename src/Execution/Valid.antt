-- ===== src/Execution/Valid.antt =====
-- The well-formed runs, and the runs that the commands write.
use Prim.Native.String.{String}
use uads.Common.Nullable.{map_text}
use uads.Common.{
  true, false, not, ◌&&◌, List, [], ◌∷◌, ◌++◌, Option, none, some, map, filter, any, contains,
  dedupe_from, ◌==◌, string_eq, ◌&◌, arith, ◌≡◌, ◌≢◌, ◌⊎◌, inl, inr, refl, Bool-cases,
}
use text.Mathlib.TextLemmas.{append-eq-nil_iff}
use uads.Common.Find.{any-append}
use uads.Kernel.Execution.{
  ChangeSet, ExecutionPhase, ExecutionRun, ExecutionStatus, ScopeClassification, ScopeViolation,
  execution_phase_eq, execution_status_eq,
}
use uads.Kernel.Ids.{unique}
use uads.Gates.Records.{EvidenceRecord, GateStateSnapshot, ReviewRecord, ReviewVerdict}
use uads.Execution.Store.{Intel, ReviewPacket, World}
use uads.Execution.Sanitize.{sanitize_run}
use uads.Execution.Verify.{
  can_verify, classification_text, no_change, reusing_run, unchanged_run, verified_run,
  violating_run, violation_text,
}
use uads.Execution.Record.{recorded_run}
use uads.Execution.Assure.{reviewing_run}
use uads.Execution.Review.{reviewed_run, run_on_verdict, with_review}
use uads.Execution.Finalize.{completed_run}
use uads.Execution.Expand.{expanded_run}
use uads.Kernel.Types.{ContextRadius}

-- A completed run has stopped; a run to be corrected is back at its implementation; a run that has
-- stopped is completed, or blocked with a reason; changes out of scope stop a run; and what is
-- verified or reviewed has a digest.
abbrev pub IsValid : ExecutionRun → Type 0
IsValid r =
    (r.status ≡ ExecutionStatus.completed → r.phase ≡ ExecutionPhase.stopped)
    × (r.status ≡ ExecutionStatus.correction_needed → r.phase ≡ ExecutionPhase.implement)
    × (r.phase ≡ ExecutionPhase.stopped
        → (r.status ≡ ExecutionStatus.completed)
          ⊎ ((r.status ≡ ExecutionStatus.blocked) × (r.blockers ≢ [])))
    × (r.scope_violations ≢ [] → r.phase ≡ ExecutionPhase.stopped)
    × ((r.phase ≡ ExecutionPhase.verify) ⊎ (r.phase ≡ ExecutionPhase.review)
        → r.current_change_digest ≢ none)

map_not_nil : {A B : Type 0} (f : A → B) (xs : List A) → xs ≢ [] → map f xs ≢ []
map_not_nil f [] h e = h refl
map_not_nil f (x ∷ xs) h e = cc e

map_some_nil : {A B : Type 0} (f : A → B) (xs : List A) → map f xs ≢ [] → xs ≢ []
map_some_nil f [] h e = h refl
map_some_nil f (x ∷ xs) h e = cc e

texts_not_nil : (xs : List String) → any (λ v. not (v == "")) xs ≡ true → unique xs ≢ []
unfolding any unique dedupe_from filter contains
texts_not_nil [] h e = cc h
texts_not_nil (x ∷ xs) h e = elim (Bool-cases (x == "")) [
  | inl blank ↦ texts_not_nil xs (rw blank at h) (rw blank at e)
  | inr filled ↦ let k = rw filled at e in cc k
]

any_right :
    (xs ys : List String)
    → any (λ v. not (v == "")) ys ≡ true
    → any (λ v. not (v == "")) (xs ++ ys) ≡ true
any_right xs ys h = ground (arith, any-append (λ v. not (v == "")) xs ys)

-- A text that begins with one that is not empty is not empty.
filled_text : (a b : String) → a ≢ "" → not ((a & b) == "") ≡ true
filled_text a b h = elim (Bool-cases ((a & b) == "")) [
  | inl blank ↦ absurd (h (append-eq-nil_iff.0 ((string_eq.beq_iff (a & b) "").0 blank)).0)
  | inr filled ↦ rw filled refl
]

class_filled : (c : ScopeClassification) → classification_text c ≢ ""
class_filled ScopeClassification.in_scope e = cc e
class_filled ScopeClassification.supporting e = cc e
class_filled ScopeClassification.out_of_scope e = cc e
class_filled ScopeClassification.sensitive e = cc e

violations_filled :
    (vs : List ScopeViolation) → vs ≢ [] → any (λ v. not (v == "")) (map violation_text vs) ≡ true
unfolding any
violations_filled [] h = absurd (h refl)
violations_filled (v ∷ vs) h =
    let filled =
      filled_text (classification_text v.classification) (": " & v.path)
        (class_filled v.classification) in
    ground (arith, filled)

redacted_some : (f : String → String) (o : Option String) → o ≢ none → map_text f o ≢ none
redacted_some f none h e = h refl
redacted_some f (some a) h e = cc e

module _ (world : World) where
  -- Redaction keeps a run well-formed.
  pub sanitize_run-IsValid : (r : ExecutionRun) → IsValid r → IsValid (sanitize_run world.redact r)
  unfolding sanitize_run
  sanitize_run-IsValid r (a, b, c, d, e) = (
    a,
    b,
    (λ h. elim (c h) [
      | inl done ↦ inl done
      | inr (blocked, reasons) ↦ inr (blocked, map_not_nil world.redact r.blockers reasons)
    ]),
    (λ h. d (map_some_nil _ r.scope_violations h)),
    (λ h. redacted_some world.redact r.current_change_digest (e h)),
  )

  pub unchanged_run-IsValid :
      (r : ExecutionRun) → can_verify r ≡ true → IsValid r → IsValid (unchanged_run world r)
  unfolding unchanged_run can_verify any
  unchanged_run-IsValid r v (a, b, c, d, e) = (
    (λ h. cc h),
    (λ h. cc h),
    (λ h. inr (refl, texts_not_nil _ (any_right r.blockers (no_change ∷ []) refl))),
    d,
    e,
  )

  pub violating_run-IsValid :
      (r : ExecutionRun) (changes : ChangeSet)
      → changes.violations ≢ []
      → IsValid (violating_run world r changes)
  unfolding violating_run
  violating_run-IsValid r changes v = (
    (λ h. refl),
    (λ h. cc h),
    (λ h. inr (
      refl,
      texts_not_nil _ (
          any_right r.blockers (map violation_text changes.violations)
            (violations_filled changes.violations v)),
    )),
    (λ h. refl),
    (λ h e. cc e),
  )

  pub verified_run-IsValid :
      (r : ExecutionRun) (changes : ChangeSet) → IsValid (verified_run world r changes)
  unfolding verified_run
  verified_run-IsValid r changes = ground arith

  pub reusing_run-IsValid :
      (r : ExecutionRun) (hits : List EvidenceRecord)
      → IsValid r
      → IsValid (reusing_run world r hits)
  unfolding reusing_run
  reusing_run-IsValid r hits v = v

  pub recorded_run-IsValid :
      (r : ExecutionRun) (e : EvidenceRecord) (gates : List GateStateSnapshot)
      → (not (r.phase == ExecutionPhase.verify)
          && (not (r.phase == ExecutionPhase.review)
              && not (r.status == ExecutionStatus.correction_needed)))
        ≡ false
      → IsValid r
      → IsValid (recorded_run world r e gates)
  unfolding recorded_run
  recorded_run-IsValid r e gates h (a, b, c, d, f) =
      (a, b, (λ s. absurd (ground (arith, h, s, b))), d, f)

  pub reviewing_run-IsValid :
      (r : ExecutionRun) (packet : ReviewPacket)
      → (not (r.phase == ExecutionPhase.verify) && not (r.phase == ExecutionPhase.review)) ≡ false
      → IsValid r
      → IsValid (reviewing_run world r packet)
  unfolding reviewing_run
  reviewing_run-IsValid r packet h (a, b, c, d, f) = (
    (λ s. cc s),
    (λ s. cc s),
    (λ s. cc s),
    (λ s. absurd (ground (arith, h, d s))),
    (λ s. f (ground (arith, h))),
  )

  run_on_verdict-IsValid :
      (k : ReviewVerdict) (r : ExecutionRun) (role : String)
      → r.phase ≡ ExecutionPhase.review
      → IsValid r
      → IsValid (run_on_verdict world k r role)
  unfolding any
  run_on_verdict-IsValid ReviewVerdict.correction_needed r role h (a, b, c, d, f) = (
    (λ s. cc s),
    (λ s. refl),
    (λ s. cc s),
    (λ s. absurd (
        let e = d s in
        let no : ExecutionPhase.review ≡ ExecutionPhase.stopped = cc (h, e) in cc no)),
    (λ s. f (inr h)),
  )
  run_on_verdict-IsValid ReviewVerdict.review_blocked r role h (a, b, c, d, f) = (
    (λ s. cc),
    (λ s. cc s),
    (λ s. inr (
      refl,
      texts_not_nil _ (
          any_right r.blockers (("review-blocked:" & role) ∷ []) (
            let filled = filled_text "review-blocked:" role (λ e. cc e) in ground (arith, filled))),
    )),
    (λ s. refl),
    (λ s. f (inr h)),
  )
  run_on_verdict-IsValid ReviewVerdict.approved r role h (a, b, c, d, f) = (a, b, c, d, f)

  pub reviewed_run-IsValid :
      (r : ExecutionRun) (v : ReviewRecord)
      → r.phase ≡ ExecutionPhase.review
      → IsValid r
      → IsValid (reviewed_run world r v)
  unfolding reviewed_run
  reviewed_run-IsValid r v h i =
      run_on_verdict-IsValid v.verdict (with_review world r v) v.reviewer_role h i

  pub completed_run-IsValid :
      (r : ExecutionRun) (evidence : List EvidenceRecord) → IsValid (completed_run world r evidence)
  unfolding completed_run
  completed_run-IsValid r evidence = ground arith

  pub expanded_run-IsValid :
      (r : ExecutionRun) (next : ContextRadius) (reason : String) (candidates : List String)
      (intel : Intel)
      → IsValid r
      → IsValid (expanded_run world r next reason candidates intel)
  unfolding expanded_run
  expanded_run-IsValid r next reason candidates intel v = v
