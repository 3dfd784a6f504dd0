-- ===== src/Execution/Hindrances.antt =====
-- What stands against the completion of a run, by what is on file of it: the checks that
-- `runFinalize` of src/kernel/execution.ts makes before it throws, each with its text.
use Prim.Native.String.{String, count}
use text.Mathlib.TextLemmas.{length-append}
use mathlib.Core.List.{Memᴰ}
use uads.Common.{
  true, false, not, inl, inr, List, [], ◌∷◌, ◌++◌, none, some, filter, flat_map, contains,
  contains-append, ◌==◌, string_eq, ◌&◌, arith, ap, ◌<◌, ◌≡◌, ◌≢◌, ◌⊎◌, refl, Bool-cases,
  contains-dedupe_from,
}
use uads.Kernel.Types.{WorkOrder, independent_reviewer_role}
use uads.Kernel.Execution.{ExecutionPhase, ExecutionRun, ExecutionStatus}
use uads.Kernel.Ids.{unique}
use uads.Gates.Records.{
  EvidenceRecord, EvidenceRuntimeStatus, GateRuntimeStatus, GateStateSnapshot, ReviewRecord,
  ReviewVerdict,
}
use uads.Execution.Store.{World}
use uads.Execution.Finalize.{independent_of}
use uads.Execution.Run.{gate_states_of, requires_implementation}

module _ (world : World) (order : WorkOrder) (run : ExecutionRun) (live : String)
    (evidence : List EvidenceRecord) (reviews : List ReviewRecord) where
  -- What hinders the completion, and the text that says so.
  pub data Hindrance : String → Type 0 where
    undigested : run.current_change_digest ≡ none → Hindrance "missing change digest"
    unverified :
        (run.phase ≡ ExecutionPhase.implement) ⊎ (run.phase ≡ ExecutionPhase.verify)
        → Hindrance "cannot finalize before independent review"
    to_be_corrected :
        run.status ≡ ExecutionStatus.correction_needed
        → Hindrance "cannot finalize before independent review"
    unbound :
        requires_implementation order ≡ true
        → run.implementer_session_id ≡ none
        → Hindrance "missing authoritative implementer session"
    moved :
        (d : String)
        → run.current_change_digest ≡ some d
        → d ≢ ""
        → live ≢ d
        → Hindrance "current git digest differs from verified digest"
    out_of_scope :
        run.scope_violations ≢ [] → Hindrance "unresolved out-of-scope or sensitive changes"
    pending_gate :
        (g : GateStateSnapshot)
        → Memᴰ g (gate_states_of world run evidence reviews)
        → g.status ≡ GateRuntimeStatus.pending
        → Hindrance ("pending gate " & g.gate_id)
    failed_gate :
        (g : GateStateSnapshot)
        → Memᴰ g (gate_states_of world run evidence reviews)
        → g.status ≡ GateRuntimeStatus.fail
        → Hindrance ("fail gate " & g.gate_id)
    blocked_gate :
        (g : GateStateSnapshot)
        → Memᴰ g (gate_states_of world run evidence reviews)
        → g.status ≡ GateRuntimeStatus.blocked
        → Hindrance ("blocked gate " & g.gate_id)
    unreviewed :
        ((r : ReviewRecord)
          → Memᴰ r reviews
          → run.current_change_digest ≡ some r.change_digest
          → r.reviewer_role ≢ independent_reviewer_role)
        → Hindrance "missing independent review"
    -- By the first review of the digest by the independent reviewer.
    corrected :
        (r : ReviewRecord)
        → independent_of world run reviews ≡ some r
        → r.verdict ≡ ReviewVerdict.correction_needed
        → Hindrance "CORRECTION_NEEDED review is not an approval"
    refused :
        (r : ReviewRecord)
        → independent_of world run reviews ≡ some r
        → r.verdict ≡ ReviewVerdict.review_blocked
        → Hindrance "independent reviewer has not APPROVED"
    self_reviewed :
        (r : ReviewRecord)
        → independent_of world run reviews ≡ some r
        → r.verdict ≡ ReviewVerdict.approved
        → r.review_session_id ≡ r.implementer_session_id
        → Hindrance "same implementer/reviewer session"
    moved_since_review :
        (r : ReviewRecord)
        → independent_of world run reviews ≡ some r
        → r.verdict ≡ ReviewVerdict.approved
        → live ≢ r.change_digest
        → Hindrance "current git digest differs from reviewed digest"
    unapproved_role :
        (role : String)
        → Memᴰ role run.required_reviewers
        → ((r : ReviewRecord)
            → Memᴰ r reviews
            → run.current_change_digest ≡ some r.change_digest
            → r.reviewer_role ≡ role
            → r.verdict ≢ ReviewVerdict.approved)
        → Hindrance ("missing required assurance reviewer " & role)
    unproven :
        order.acceptance_criteria ≢ []
        → ((e : EvidenceRecord)
            → Memᴰ e evidence
            → run.current_change_digest ≡ some e.change_digest
            → e.status ≢ EvidenceRuntimeStatus.evidence_pass)
        → Hindrance "required acceptance evidence missing"

pub in_left :
    (xs ys : List String) (a : String) → contains xs a ≡ true → contains (xs ++ ys) a ≡ true
in_left xs ys a h = ground (arith, contains-append xs ys a)

pub in_right :
    (xs ys : List String) (a : String) → contains ys a ≡ true → contains (xs ++ ys) a ≡ true
in_right xs ys a h = ground (arith, contains-append xs ys a)

pub in_flat_map :
    {A : Type 0} (f : A → List String) (xs : List A) (x : A) (a : String)
    → Memᴰ x xs
    → contains (f x) a ≡ true
    → contains (flat_map f xs) a ≡ true
unfolding flat_map
in_flat_map f [] x a m h = elim m [ ]
in_flat_map f (y ∷ ys) x a (Memᴰ.head same) h = in_left (f y) (flat_map f ys) a (rw (← same) h)
in_flat_map f (y ∷ ys) x a (Memᴰ.tail m) h =
    in_right (f y) (flat_map f ys) a (in_flat_map f ys x a m h)

contains_kept :
    (xs : List String) (a : String)
    → (a == "") ≡ false
    → contains xs a ≡ true
    → contains (filter (λ v. not (v == "")) xs) a ≡ true
unfolding contains filter
contains_kept [] a h k = k
contains_kept (x ∷ xs) a h k = elim (Bool-cases (x == a)) [
  | inl here ↦
      let same = (string_eq.beq_iff x a).0 here in
      rw same (rw h (rw ((string_eq.beq_iff a a).1 refl) refl))
  | inr other ↦ ground (arith, contains_kept xs a h, k, other)
]

pub unique-contains :
    (xs : List String) (a : String)
    → (a == "") ≡ false
    → contains xs a ≡ true
    → contains (unique xs) a ≡ true
unfolding unique contains
unique-contains xs a h k =
    ground
      (arith, contains-dedupe_from [] (filter (λ v. not (v == "")) xs) a, contains_kept xs a h k)

pub joined_text : (s t : String) → 0 < count s → ((s & t) == "") ≡ false
joined_text s t h = elim (Bool-cases ((s & t) == "")) [
  | inl nothing ↦
      let same : count (s & t) ≡ 0 = ap count ((string_eq.beq_iff (s & t) "").0 nothing) in
      let no : ⊥ = omega (arith, length-append s t, same, h) in absurd no
  | inr something ↦ something
]
