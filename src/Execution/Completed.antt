-- ===== src/Execution/Completed.antt =====
-- What a run that `runFinalize` of src/kernel/execution.ts completes had behind it: the guard that
-- collects the blockers, and the assurance policy that it asks.
use uads.Common.{not, List, Option, ◌==◌, string_eq, if◌then◌else◌, ◌≡◌, ◌⊎◌, inl, inr, Bool-cases}
use uads.Kernel.Execution.{ExecutionRun, ExecutionStatus, execution_phase_eq, execution_status_eq}
use uads.Kernel.Ids.{unique}
use uads.Gates.Records.{EvidenceRecord, verdict_eq}
use uads.Assurance.Types.{SelectionPlan}
use uads.Assurance.Binding.{is_nil}
use uads.Execution.Store.{Store, World, ◌>>=◌, execution_blocked, pure, raise_if, returned}
use uads.Execution.Persist.{evidence_in, reviews_in, list_evidence_records, list_review_records}
use uads.Execution.Run.{Active, load_active}
use uads.Execution.Finalize.{
  complete, completed_run, finalize_blockers, finalize_open, run_finalize,
}
use uads.Execution.Returns.{by_end, let_on, let_through, returned_by}
use uads.Execution.Reading.{load_active-IsReader}
use uads.Execution.Blockers.{nil_of_is_nil}
use uads.Execution.Ready.{IsReady, finalize_blockers-IsReady}

module _ (world : World) where
  -- What stands in the store for the run, as `finalize` looks it up.
  abbrev pub selection_of : Active → Store → Option SelectionPlan
  selection_of active s =
      world.bound_selection active.work_order
        (s.routing_decisions active.work_order.routing_decision_id) active.context_plan

  complete_result :
      (active : Active) (evidence : List EvidenceRecord) (s : Store) (r : ExecutionRun)
      → (complete world active evidence s).0 ≡ returned r
      → r ≡ completed_run world active.run evidence
  unfolding complete
  complete_result active evidence s r h =
      let (a, written, h) = returned_by _ _ s r h in
      let (b, noted, h) = returned_by _ _ _ r h in cc h

  -- What `finalize` finds of the run, and the run that it leaves.
  abbrev pub IsFinalized : Active → Store → ExecutionRun → Type 0
  IsFinalized active s r =
      let id = active.run.execution_run_id in
      IsReady world active.work_order active.run
        (world.change_set active.work_order active.context_plan).digest (evidence_in world id s)
        (reviews_in world id s) (selection_of active s)
      × (r ≡ completed_run world active.run (evidence_in world id s))

  finalize_open-IsFinalized :
      (active : Active) (s : Store) (r : ExecutionRun)
      → (finalize_open world active s).0 ≡ returned r
      → IsFinalized active s r
  unfolding ◌>>=◌ list_evidence_records list_review_records
  finalize_open-IsFinalized active s r h =
      let id = active.run.execution_run_id in
      let evidence = evidence_in world id s in
      let reviews = reviews_in world id s in
      let live = (world.change_set active.work_order active.context_plan).digest in
      let blockers =
        finalize_blockers world active.work_order active.run live evidence reviews
          (selection_of active s) in
      let refused = execution_blocked "finalize refused" (unique blockers) in
      let (a, passed, h) =
        by_end (λ a. complete world active evidence) (raise_if (not (is_nil blockers)) refused s) r
          h in
      let clear = let_through (not (is_nil blockers)) refused a s passed in
      (
        finalize_blockers-IsReady world active.work_order active.run live evidence reviews
            (selection_of active s) (nil_of_is_nil blockers clear),
        complete_result active evidence s r
            (rw (let_on (not (is_nil blockers)) refused s clear) at h),
      )

  if_completed :
      (active : Active) (s : Store) (r : ExecutionRun)
      → ((if active.run.status == ExecutionStatus.completed
            then pure active.run
            else finalize_open world active)
          s).0
        ≡ returned r
      → (r ≡ active.run) × (active.run.status ≡ ExecutionStatus.completed) ⊎ IsFinalized active s r
  if_completed active s r h = elim (Bool-cases (active.run.status == ExecutionStatus.completed)) [
    | inl done ↦
        let k : (pure active.run s).0 ≡ returned r = rw done at h in
        inl (cc k, (execution_status_eq.beq_iff active.run.status ExecutionStatus.completed).0 done)
    | inr open_run ↦
        let k : (finalize_open world active s).0 ≡ returned r = rw open_run at h in
        inr (finalize_open-IsFinalized active s r k)
  ]

-- A call of finalize that returns found a run completed before, and returns it, or a run whose
-- verified digest the work tree still has, with no scope violation, every gate at PASS, acceptance
-- evidence where criteria are set, an independent approval of the digest by another session, and
-- for every required role an approval that the policy counts; and it returns that run completed.
pub run_finalize-IsFinalized :
    (world : World) (s : Store) (r : ExecutionRun)
    → (run_finalize world s).0 ≡ returned r
    → (active : Active) × ((load_active world s).0 ≡ returned active)
      × ((r ≡ active.run) × (active.run.status ≡ ExecutionStatus.completed)
          ⊎ IsFinalized world active s r)
unfolding run_finalize
run_finalize-IsFinalized world s r h =
    let (active, loaded, k) = returned_by (load_active world) _ s r h in
    (
      active,
      loaded,
      if_completed world active s r (rw ((load_active-IsReader world).same_store s) at k),
    )
