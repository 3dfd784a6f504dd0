-- ===== src/Execution/Refused.antt =====
-- Where a call of `runFinalize` of src/kernel/execution.ts refuses.
use Prim.Native.String.{String}
use uads.Common.{
  Bool, true, false, inl, inr, List, [], ◌∷◌, contains, ◌==◌, string_eq, if◌then◌else◌, arith, ◌≡◌,
  ◌≢◌, refl, Bool-cases, ◌∙◌,
}
use uads.Kernel.Types.{WorkOrder}
use uads.Kernel.Execution.{ExecutionRun, ExecutionStatus, execution_phase_eq, execution_status_eq}
use uads.Kernel.Ids.{unique}
use uads.Gates.Records.{EvidenceRecord, ReviewRecord, evidence_status_eq, verdict_eq}
use uads.Assurance.Binding.{is_nil}
use uads.Execution.Store.{Action, Store, World, ◌>>=◌, execution_blocked, pure, returned, thrown}
use uads.Execution.Persist.{evidence_in, reviews_in, list_evidence_records, list_review_records}
use uads.Execution.Run.{Active, load_active}
use uads.Execution.Finalize.{finalize_blockers, finalize_open, run_finalize}
use uads.Execution.Reading.{load_active-IsReader}
use uads.Execution.Completed.{selection_of}
use uads.Execution.Hindrances.{Hindrance, joined_text, unique-contains}
use uads.Execution.Hindered.{hindered}

module _ (world : World) (order : WorkOrder) (run : ExecutionRun) (live : String)
    (evidence : List EvidenceRecord) (reviews : List ReviewRecord) where
  pub hindrance_text :
      (text : String) → Hindrance world order run live evidence reviews text → (text == "") ≡ false
  hindrance_text text (Hindrance.undigested h) = refl
  hindrance_text text (Hindrance.unverified h) = refl
  hindrance_text text (Hindrance.to_be_corrected h) = refl
  hindrance_text text (Hindrance.unbound h k) = refl
  hindrance_text text (Hindrance.moved d h filled other) = refl
  hindrance_text text (Hindrance.out_of_scope h) = refl
  hindrance_text text (Hindrance.pending_gate g m h) =
      joined_text "pending gate " g.gate_id (omega arith)
  hindrance_text text (Hindrance.failed_gate g m h) =
      joined_text "fail gate " g.gate_id (omega arith)
  hindrance_text text (Hindrance.blocked_gate g m h) =
      joined_text "blocked gate " g.gate_id (omega arith)
  hindrance_text text (Hindrance.unreviewed h) = refl
  hindrance_text text (Hindrance.corrected r first h) = refl
  hindrance_text text (Hindrance.refused r first h) = refl
  hindrance_text text (Hindrance.self_reviewed r first h same) = refl
  hindrance_text text (Hindrance.moved_since_review r first h other) = refl
  hindrance_text text (Hindrance.unapproved_role role m h) =
      joined_text "missing required assurance reviewer " role (omega arith)
  hindrance_text text (Hindrance.unproven h k) = refl

pair_of : {A B : Type 0} (o : A × B) (a : A) (b : B) → o.0 ≡ a → o.1 ≡ b → o ≡ (a, b)
pair_of o a b h k = cc (h, k)

kept_open :
    (c : Bool) (m k : Action ExecutionRun) (s : Store) → c ≡ false → (if c then m else k) s ≡ k s
kept_open true m k s h = cc h
kept_open false m k s h = refl

full_list : (xs : List String) (text : String) → contains xs text ≡ true → is_nil xs ≡ false
unfolding contains
full_list [] text h = cc h
full_list (x ∷ xs) text h = refl

-- Of an active run that is not completed yet, finalize throws if one of these stands against its
-- completion; the text of each that does is among those thrown, and every file stays as it was. The
-- digest is missing, or the work tree no longer has it; the phase is before the review, or a
-- correction is to be made; implementation is required and no session of it bound; there are scope
-- violations; a gate is pending, failed or blocked; there is no independent review of the digest, or
-- the first one wants a correction, refuses, is of the implementer's session or of another digest
-- than the work tree has; a required role has no approval of the digest; or there are criteria and
-- no passing record of the digest.
pub run_finalize_refused :
    (world : World) (s : Store) (active : Active) (text : String)
    → (load_active world s).0 ≡ returned active
    → active.run.status ≢ ExecutionStatus.completed
    → Hindrance world active.work_order active.run
        (world.change_set active.work_order active.context_plan).digest
        (evidence_in world active.run.execution_run_id s)
        (reviews_in world active.run.execution_run_id s)
        text
    → (texts : List String) × (run_finalize world s
        ≡ (thrown (execution_blocked "finalize refused" texts), s))
      × (contains texts text ≡ true)
unfolding run_finalize ◌>>=◌ list_evidence_records list_review_records
run_finalize_refused world s active text loaded unfinished hindrance =
    let id = active.run.execution_run_id in
    let order = active.work_order in
    let live = (world.change_set order active.context_plan).digest in
    let evidence = evidence_in world id s in
    let reviews = reviews_in world id s in
    let selection = selection_of world active s in
    let blockers = finalize_blockers world order active.run live evidence reviews selection in
    let found = hindered world order active.run live evidence reviews selection text hindrance in
    let start : load_active world s ≡ (returned active, s) =
      pair_of (load_active world s) (returned active) s loaded
        ((load_active-IsReader world).same_store s) in
    let unlike : (active.run.status == ExecutionStatus.completed) ≡ false =
      elim (Bool-cases (active.run.status == ExecutionStatus.completed)) [
        | inl done ↦ absurd (
            unfinished
              ((execution_status_eq.beq_iff active.run.status ExecutionStatus.completed).0 done))
        | inr open_run ↦ open_run
      ] in
    (
      unique blockers,
      rw start (
          kept_open (active.run.status == ExecutionStatus.completed) (pure active.run)
            (finalize_open world active) s unlike
          ∙ rw (full_list blockers text found) refl),
      unique-contains blockers text
          (hindrance_text world order active.run live evidence reviews text hindrance) found,
    )
