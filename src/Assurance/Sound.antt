-- ===== src/Assurance/Sound.antt =====
-- What it takes for the policy to object to nothing: of a review, of the loop over the reviews, and
-- of the whole evaluation.
use Prim.Native.String.{String}
use uads.Common.{
  true_of_not, All, Bool, true, false, not, ◌&&◌, ◌||◌, List, [], ◌∷◌, ◌++◌, Option, some, any,
  append-nil_iff, contains, ◌==◌, string_eq, if◌then◌else◌, arith, ◌≡◌, ◌≢◌, refl, inl, inr,
  Bool-cases,
}
use uads.Common.Nullable.{same_nullable, same_nullable_iff}
use uads.Gates.Records.{
  EvidenceRecord, ReviewFinding, ReviewRecord, ReviewVerdict, is_severe, verdict_eq,
}
use uads.Assurance.Types.{AssurancePolicyInput}
use uads.Assurance.Roles.{Objection, ReasonCode, is_recognized_assurance_role, object_if}
use uads.Assurance.Selection.{review_references_are_current}
use uads.Assurance.Binding.{review_identity_matches}
use uads.Assurance.Reviews.{
  Seen, approval_objections, is_approval, is_critical, is_high, loop_objections, own_objections,
  remember, review_objections,
}

pub object_if-nil :
    (c : Bool) (code : ReasonCode) (subject : Option String)
    → object_if c code subject ≡ []
    → c ≡ false
object_if-nil c code subject h = ground (arith, h)

-- One check of a chain: the rest of the chain is free of objections as well.
pub check_first :
    (c : Bool) (code : ReasonCode) (subject : Option String) (rest : List Objection)
    → object_if c code subject ++ rest ≡ []
    → (c ≡ false) × (rest ≡ [])
check_first c code subject rest h =
    let (here, later) = (append-nil_iff (object_if c code subject) rest).0 h in
    (object_if-nil c code subject here, later)

-- A review that proves what it says: it is of this project, work order, run and digest, by a
-- required role that did not implement, in a session of its own beside the bound implementer's, and
-- it refers to current evidence only.
abbrev pub IsIndependent :
    AssurancePolicyInput → List String → List EvidenceRecord → ReviewRecord → Type 0
IsIndependent input roles evidence r =
    (contains roles r.reviewer_role ≡ true)
    × (review_identity_matches input r ≡ true)
    × ((r.review_session_id == "") ≡ false)
    × ((r.reviewer_role == input.run.implementer_role) ≡ false)
    × (some r.implementer_session_id ≡ input.run.implementer_session_id)
    × (some r.review_session_id ≢ input.run.implementer_session_id)
    × (review_references_are_current input r evidence ≡ true)

-- No approval over a HIGH or a CRITICAL finding.
abbrev pub IsConsistent : ReviewRecord → Type 0
IsConsistent r =
    r.verdict ≡ ReviewVerdict.approved
    → any (λ (f : ReviewFinding). is_severe f.severity) r.findings ≡ false

severe_of :
    (fs : List ReviewFinding)
    → any (λ (f : ReviewFinding). is_high f.severity) fs ≡ false
    → any (λ (f : ReviewFinding). is_critical f.severity) fs ≡ false
    → any (λ (f : ReviewFinding). is_severe f.severity) fs ≡ false
unfolding any
severe_of [] h k = refl
severe_of (f ∷ fs) h k = ground (arith, severe_of fs)

bound_session :
    (known : Bool) (a b : Option String) → (not known || not (same_nullable a b)) ≡ false → a ≡ b
bound_session known a b h =
    (same_nullable_iff a b).0 (true_of_not (same_nullable a b) (ground (arith, h)))

other_session : (a b : Option String) → same_nullable a b ≡ false → a ≢ b
other_session a b h e = let yes = (same_nullable_iff a b).1 e in cc (h, yes)

approved_severe :
    (v : ReviewVerdict) (a b : Bool)
    → (v == ReviewVerdict.approved && a) ≡ false
    → (v == ReviewVerdict.approved && b) ≡ false
    → v ≡ ReviewVerdict.approved
    → (a ≡ false) × (b ≡ false)
approved_severe v a b h k e = ground arith

module _ (input : AssurancePolicyInput) (roles : List String) (evidence : List EvidenceRecord) where
  pub own_objections-nil :
      (r : ReviewRecord)
      → own_objections input roles evidence r ≡ []
      → IsIndependent input roles evidence r × IsConsistent r
  unfolding own_objections
  own_objections-nil r h =
      let (required, h) = check_first _ _ _ _ h in
      let (live, h) = check_first _ _ _ _ h in
      let (session, h) = check_first _ _ _ _ h in
      let (other, h) = check_first _ _ _ _ h in
      let (same_role, h) = check_first _ _ _ _ h in
      let (bound, h) = check_first _ _ _ _ h in
      let (apart, h) = check_first _ _ _ _ h in
      let (refs, h) = check_first _ _ _ _ h in
      let (prefix, h) = check_first _ _ _ _ h in
      let (no_high, h) = check_first _ _ _ _ h in
      let (no_critical, h) = check_first _ _ _ _ h in
      (
        (
          true_of_not _ required,
          true_of_not _ live,
          session,
          other,
          bound_session _ _ _ bound,
          other_session _ _ apart,
          true_of_not _ refs,
        ),
        (λ e.
            let (a, b) = approved_severe r.verdict _ _ no_high no_critical e in
            severe_of r.findings a b),
      )

  -- A review that nothing is objected to is recognized and independent; an approval is the first of
  -- its role and of its session.
  pub review_objections-nil :
      (seen : Seen) (r : ReviewRecord)
      → review_objections input roles evidence seen r ≡ []
      → (is_recognized_assurance_role r.reviewer_role ≡ true)
        × IsIndependent input roles evidence r
        × IsConsistent r
        × (is_approval r ≡ true → approval_objections input roles evidence seen r ≡ [])
  unfolding review_objections
  review_objections-nil seen r h =
      let (fresh, h) =
        check_first (contains seen.ids r.review_id) ReasonCode.duplicate_review_id
          (some r.review_id)
          (if is_recognized_assurance_role r.reviewer_role
            then own_objections input roles evidence r
              ++ (if is_approval r then approval_objections input roles evidence seen r else [])
            else object_if true ReasonCode.unknown_reviewer_role (some r.reviewer_role))
          h in
      elim (Bool-cases (is_recognized_assurance_role r.reviewer_role)) [
        | inl known ↦
            let k : own_objections input roles evidence r
                  ++ (if is_approval r then approval_objections input roles evidence seen r else [])
                ≡ [] =
              rw known at h in
            let (own, approval) = (append-nil_iff _ _).0 k in
            let (independent, consistent) = own_objections-nil r own in
            (known, independent, consistent, (λ e. rw e at approval))
        | inr unknown ↦
            let k : object_if true ReasonCode.unknown_reviewer_role (some r.reviewer_role) ≡ [] =
              rw unknown at h in
            absurd (cc k)
      ]

  -- No objection in the loop, so none in any of the reviews.
  pub loop_objections-nil :
      (seen : Seen) (rs : List ReviewRecord)
      → loop_objections input roles evidence seen rs ≡ []
      → All
          (λ r.
            (is_recognized_assurance_role r.reviewer_role ≡ true)
            × IsIndependent input roles evidence r
            × IsConsistent r)
          rs
  unfolding loop_objections
  loop_objections-nil seen [] h = tt
  loop_objections-nil seen (r ∷ rs) h =
      let (here, later) = (append-nil_iff _ _).0 h in
      let (known, independent, consistent, approval) = review_objections-nil seen r here in
      ((known, independent, consistent), loop_objections-nil (remember seen r) rs later)
