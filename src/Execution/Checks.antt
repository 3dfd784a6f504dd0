-- ===== src/Execution/Checks.antt =====
-- Single checks of `runFinalize` of src/kernel/execution.ts: each gives its text where it finds
-- something.
use Prim.Native.String.{String}
use mathlib.Core.List.{Memᴰ}
use uads.Common.{
  Bool, true, false, not, ◌||◌, ◌&&◌, inl, inr, List, [], ◌∷◌, ◌++◌, Option, none, some, any,
  contains, contains-append, ◌==◌, string_eq, ◌&◌, arith, ap, ◌≡◌, ◌≢◌, refl, Bool-cases,
  any-witness, sym,
}
use uads.Kernel.Types.{WorkOrder}
use uads.Kernel.Execution.{
  ExecutionPhase, ExecutionRun, ExecutionStatus, execution_phase_eq, execution_status_eq,
}
use uads.Gates.Records.{
  GateRuntimeStatus, GateStateSnapshot, ReviewRecord, ReviewVerdict, evidence_status_eq, verdict_eq,
}
use uads.Gates.States.{same_text}
use uads.Assurance.Binding.{is_nil}
use uads.Execution.Store.{World}
use uads.Execution.Run.{requires_implementation}
use uads.Execution.Finalize.{
  block_if, gate_blockers, independent_blockers, role_blockers, run_blockers,
}

pub one_blocker : (c : Bool) (text : String) → c ≡ true → contains (block_if c text) text ≡ true
unfolding contains
one_blocker c text h = rw h (rw ((string_eq.beq_iff text text).1 refl) refl)

pub differs : (a b : String) → a ≢ b → (a == b) ≡ false
differs a b h = elim (Bool-cases (a == b)) [
  | inl same ↦ absurd (h ((string_eq.beq_iff a b).0 same))
  | inr other ↦ other
]

pub not_nil : {A : Type 0} (xs : List A) → xs ≢ [] → not (is_nil xs) ≡ true
not_nil [] h = absurd (h refl)
not_nil (x ∷ xs) h = refl

pub no_member :
    {A : Type 0} (p : A → Bool) (xs : List A)
    → ((a : A) → Memᴰ a xs → p a ≡ false)
    → any p xs ≡ false
no_member p xs h = elim (Bool-cases (any p xs)) [
  | inl some_one ↦
      let (a, m, passes) = any-witness p xs some_one in let no = h a m in cc (no, passes)
  | inr nothing ↦ nothing
]

pub of_digest :
    (digest : Option String) (text : String) → same_text text digest ≡ true → digest ≡ some text
of_digest none text h = cc h
of_digest (some d) text h = ap some (sym ((string_eq.beq_iff text d).0 h))

pub both_true : (a b : Bool) → (a && b) ≡ true → (a ≡ true) × (b ≡ true)
both_true a b h = ground (arith, h)

pub pending_blocker :
    (selected : List String) (g : GateStateSnapshot)
    → g.status ≡ GateRuntimeStatus.pending
    → contains (gate_blockers selected g) ("pending gate " & g.gate_id) ≡ true
unfolding gate_blockers contains
pending_blocker selected g h = ground (
  arith,
  h,
  (string_eq.beq_iff ("pending gate " & g.gate_id) ("pending gate " & g.gate_id)).1 refl,
)

pub failed_blocker :
    (selected : List String) (g : GateStateSnapshot)
    → g.status ≡ GateRuntimeStatus.fail
    → contains (gate_blockers selected g) ("fail gate " & g.gate_id) ≡ true
unfolding gate_blockers contains
failed_blocker selected g h =
    ground
      (arith, h, (string_eq.beq_iff ("fail gate " & g.gate_id) ("fail gate " & g.gate_id)).1 refl)

pub blocked_blocker :
    (selected : List String) (g : GateStateSnapshot)
    → g.status ≡ GateRuntimeStatus.blocked
    → contains (gate_blockers selected g) ("blocked gate " & g.gate_id) ≡ true
unfolding gate_blockers contains
blocked_blocker selected g h = ground (
  arith,
  h,
  (string_eq.beq_iff ("blocked gate " & g.gate_id) ("blocked gate " & g.gate_id)).1 refl,
)

pub independent_missing :
    (run : ExecutionRun) (live : String) (found : Option ReviewRecord)
    → found ≡ none
    → contains (independent_blockers run live found) "missing independent review" ≡ true
unfolding independent_blockers contains
independent_missing run live found h = rw h refl

pub correction_wanted :
    (run : ExecutionRun) (live : String) (r : ReviewRecord)
    → r.verdict ≡ ReviewVerdict.correction_needed
    → contains
        (independent_blockers run live (some r))
        "CORRECTION_NEEDED review is not an approval"
      ≡ true
unfolding independent_blockers contains
correction_wanted run live r h = ground (arith, h)

pub approval_refused :
    (run : ExecutionRun) (live : String) (r : ReviewRecord)
    → r.verdict ≡ ReviewVerdict.review_blocked
    → contains (independent_blockers run live (some r)) "independent reviewer has not APPROVED"
      ≡ true
unfolding independent_blockers contains
approval_refused run live r h = ground (arith, h)

pub session_shared :
    (run : ExecutionRun) (live : String) (r : ReviewRecord)
    → r.verdict ≡ ReviewVerdict.approved
    → (r.review_session_id == r.implementer_session_id) ≡ true
    → contains (independent_blockers run live (some r)) "same implementer/reviewer session" ≡ true
unfolding independent_blockers contains
session_shared run live r h same = ground (arith, h, same)

pub review_outdated :
    (run : ExecutionRun) (live : String) (r : ReviewRecord)
    → r.verdict ≡ ReviewVerdict.approved
    → (live == r.change_digest) ≡ false
    → contains
        (independent_blockers run live (some r))
        "current git digest differs from reviewed digest"
      ≡ true
unfolding independent_blockers contains
review_outdated run live r h other = ground (arith, h, other)

pub role_missing :
    (reviews : List ReviewRecord) (role : String)
    → ((r : ReviewRecord)
        → Memᴰ r reviews
        → ((r.reviewer_role == role) && (r.verdict == ReviewVerdict.approved)) ≡ false)
    → contains (role_blockers reviews role) ("missing required assurance reviewer " & role) ≡ true
unfolding role_blockers
role_missing reviews role h = one_blocker _ _ (rw (no_member _ reviews h) refl)

module _ (world : World) (order : WorkOrder) (run : ExecutionRun) (live : String) where
  pub digest_blocker :
      run.current_change_digest ≡ none
      → contains (run_blockers world order run live) "missing change digest" ≡ true
  unfolding run_blockers contains
  digest_blocker h = ground (arith, h)

  pub phase_blocker :
      ((run.phase == ExecutionPhase.implement)
          || ((run.phase == ExecutionPhase.verify)
              || (run.status == ExecutionStatus.correction_needed)))
        ≡ true
      → contains (run_blockers world order run live) "cannot finalize before independent review"
        ≡ true
  unfolding run_blockers contains
  phase_blocker h = ground (arith, h)

  pub session_blocker :
      requires_implementation order ≡ true
      → run.implementer_session_id ≡ none
      → contains (run_blockers world order run live) "missing authoritative implementer session"
        ≡ true
  unfolding run_blockers contains
  session_blocker h k = ground (arith, h, k)

  pub live_blocker :
      (d : String)
      → run.current_change_digest ≡ some d
      → d ≢ ""
      → live ≢ d
      → contains
          (run_blockers world order run live)
          "current git digest differs from verified digest"
        ≡ true
  unfolding run_blockers contains
  live_blocker d h filled other = ground (arith, h, differs d "" filled, differs live d other)

  pub scope_blocker :
      not (is_nil run.scope_violations) ≡ true
      → contains (run_blockers world order run live) "unresolved out-of-scope or sensitive changes"
        ≡ true
  unfolding run_blockers contains
  scope_blocker h = ground (arith, h)

pub eight_parts :
    (a b c d e f g h : List String) (text : String)
    → contains (a ++ (b ++ (c ++ (d ++ (e ++ (f ++ (g ++ h))))))) text ≡ (
        contains a text
        || (contains b text
            || (contains c text
                || (contains d text
                    || (contains e text
                        || (contains f text || (contains g text || contains h text)))))))
eight_parts a b c d e f g h text = cc (
  contains-append a (b ++ (c ++ (d ++ (e ++ (f ++ (g ++ h)))))) text,
  contains-append b (c ++ (d ++ (e ++ (f ++ (g ++ h))))) text,
  contains-append c (d ++ (e ++ (f ++ (g ++ h)))) text,
  contains-append d (e ++ (f ++ (g ++ h))) text,
  contains-append e (f ++ (g ++ h)) text,
  contains-append f (g ++ h) text,
  contains-append g h text,
)
