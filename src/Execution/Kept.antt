-- ===== src/Execution/Kept.antt =====
-- `runVerify` of src/kernel/execution.ts as a step in the life of a run.
use uads.Common.{true, false, not, List, [], none, string_eq, arith, ◌≡◌, ◌≢◌, refl}
use uads.Kernel.Types.{Checkpoint, ContextPlan, WorkOrder}
use uads.Kernel.Execution.{ChangeSet, ExecutionRun, execution_phase_eq, execution_status_eq}
use uads.Gates.Records.{EvidenceRecord, GateStateSnapshot}
use uads.Execution.Store.{World}
use uads.Execution.Run.{Active}
use uads.Execution.Verify.{
  can_verify, refuse_unchanged, refuse_violations, reuse_evidence, reusing_run, run_verify,
  verify_changes, unchanged_run, verified_run, violating_run,
}
use uads.Execution.Lifecycle.{by_verify, IsOpen, Course, move, stage_of, stay, verified}
use uads.Execution.Logic.{
  Runs, Triple, >>=-IsFrame, >>=-Triple, frame-Triple, needs, pure-IsFrame, pure-Triple,
  raise-Triple, raise_if-IsFrame, raise_if-Triple, when-Triple, when_either,
}
use uads.Execution.Steps.{IsKept}
use uads.Execution.Frames.{
  governor-IsFrame, list_evidence_records-IsFrame, list_review_records-IsFrame,
  persist_hits-IsFrame, write_checkpoint-IsFrame,
}
use uads.Execution.Valid.{
  reusing_run-IsValid, unchanged_run-IsValid, verified_run-IsValid, violating_run-IsValid,
}
use uads.Execution.Commands.{IsHeld, load_active-Triple}
use uads.Execution.Held.{
  some_violation, Keeps, IsVerifiable, verifiable-IsOpen, unchanged_run-id, unchanged-Course,
  violating_run-id, violating-Course, persist_next,
}

module _ (world : World) (start : Runs) where
  refuse_unchanged-Triple :
      (run : ExecutionRun)
      → Triple
          (IsKept world (by_verify, start))
          (IsVerifiable world (by_verify, start) run)
          (refuse_unchanged world run)
          (λ a rs. ⊥)
  unfolding refuse_unchanged
  refuse_unchanged-Triple run =
      >>=-Triple
        (persist_next world (by_verify, start) run (unchanged_run world run) none
          (λ rs. can_verify run ≡ true) (unchanged_run-id world (by_verify, start) run)
          (λ rs i. (
            unchanged_run-IsValid world run i.1 i.0.1,
            unchanged-Course world (by_verify, start) run
                (verifiable-IsOpen world (by_verify, start) run rs i),
          )))
        (λ a. raise-Triple _ (λ rs i. i.0.0))

  refuse_violations-Triple :
      (c : Checkpoint) (order : WorkOrder) (plan : ContextPlan) (run : ExecutionRun)
      (changes : ChangeSet)
      → changes.violations ≢ []
      → Triple
          (IsKept world (by_verify, start))
          (IsVerifiable world (by_verify, start) run)
          (refuse_violations world c order plan run changes)
          (λ a rs. ⊥)
  unfolding refuse_violations
  refuse_violations-Triple c order plan run changes found =
      >>=-Triple
        (>>=-Triple
          (persist_next world (by_verify, start) run (violating_run world run changes) none
            (λ rs. can_verify run ≡ true) (violating_run-id world (by_verify, start) run changes)
            (λ rs i. (
              violating_run-IsValid world run changes found,
              violating-Course world (by_verify, start) run changes
                  (verifiable-IsOpen world (by_verify, start) run rs i),
            )))
          (λ a. frame-Triple (λ rs i. i.0.0) (write_checkpoint-IsFrame world _ _ _)))
        (λ a. raise-Triple _ (λ rs i. i.0.0))

  reusing_run-id :
      (run : ExecutionRun) (hits : List EvidenceRecord)
      → (reusing_run world run hits).execution_run_id ≡ run.execution_run_id
  unfolding reusing_run
  reusing_run-id run hits = refl

  reusing-Course :
      (run : ExecutionRun) (hits : List EvidenceRecord)
      → Course by_verify (stage_of run) (stage_of (reusing_run world run hits))
  unfolding reusing_run
  reusing-Course run hits = stay

  reuse_evidence-Triple :
      (run : ExecutionRun) (gates : List GateStateSnapshot)
      → Triple
          (IsKept world (by_verify, start))
          (IsHeld world (by_verify, start) run)
          (reuse_evidence world run gates)
          (λ a. IsKept world (by_verify, start))
  unfolding reuse_evidence
  reuse_evidence-Triple run gates =
      >>=-Triple
        (>>=-Triple
          (>>=-Triple (frame-Triple (λ rs i. i.0.0) (persist_hits-IsFrame world _)) (λ a.
            when_either _ (λ rs i. i.0.0)
              (>>=-Triple
                (>>=-Triple
                  (needs (λ rs i. (i, tt))
                    (persist_next world (by_verify, start) run
                      (reusing_run world run (world.cache_hits run gates)) none (λ rs. Unit {0})
                      (reusing_run-id run _)
                      (λ rs i. (reusing_run-IsValid world run _ i.0.1, reusing-Course run _))))
                  (λ b. frame-Triple (λ rs i. i.0.0) (governor-IsFrame _)))
                (λ b. pure-Triple _ _ (λ rs i. i.0.0)))))
          (λ a.
            when_either _ (λ rs i. i)
              (>>=-Triple (frame-Triple (λ rs i. i) (governor-IsFrame _))
                (λ b. pure-Triple _ _ (λ rs i. i)))))
        (λ a. pure-Triple _ _ (λ rs i. i))

  verified_run-id :
      (run : ExecutionRun) (changes : ChangeSet)
      → (verified_run world run changes).execution_run_id ≡ run.execution_run_id
  unfolding verified_run
  verified_run-id run changes = refl

  verified-Course :
      (run : ExecutionRun) (changes : ChangeSet)
      → IsOpen (stage_of run)
      → Course by_verify (stage_of run) (stage_of (verified_run world run changes))
  unfolding verified_run
  verified-Course run changes o = move (verified o) stay

  can_verify_of : (run : ExecutionRun) → not (can_verify run) ≡ false → can_verify run ≡ true
  can_verify_of run h = ground (arith, h)

  -- Once the change is let through.
  after_checks :
      (active : Active)
      → Triple
          (IsKept world (by_verify, start))
          (IsVerifiable world (by_verify, start) active.run)
          (verify_changes world active)
          (λ a. IsKept world (by_verify, start))
  unfolding verify_changes
  after_checks active =
      >>=-Triple
        (persist_next world (by_verify, start) active.run
          (verified_run world active.run (world.change_set active.work_order active.context_plan)) _
          (λ rs. can_verify active.run ≡ true) (verified_run-id active.run _)
          (λ rs i. (
            verified_run-IsValid world active.run _,
            verified-Course active.run _
                (verifiable-IsOpen world (by_verify, start) active.run rs i),
          )))
        (λ a.
          >>=-Triple (frame-Triple (λ rs i. i.0.0) (list_evidence_records-IsFrame world _))
            (λ evidence.
              >>=-Triple (frame-Triple (λ rs i. i.0.0) (list_review_records-IsFrame world _))
                (λ reviews. >>=-Triple (reuse_evidence-Triple _ _) (λ kept.
                  frame-Triple (λ rs i. i)
                    (>>=-IsFrame (list_evidence_records-IsFrame world _) (λ evidence_after.
                      >>=-IsFrame (write_checkpoint-IsFrame world _ _ _) (λ b. pure-IsFrame _)))))))

  pub run_verify-Keeps : Keeps world (by_verify, start) (run_verify world)
  unfolding run_verify
  run_verify-Keeps = >>=-Triple (load_active-Triple world (by_verify, start)) (λ active.
      >>=-Triple (frame-Triple (λ rs i. i.0.0) (raise_if-IsFrame _ _)) (λ a.
        >>=-Triple (raise_if-Triple (not (can_verify active.run)) _ (λ rs i. i.0.0)) (λ b.
          >>=-Triple
            (when-Triple _ (λ e.
              needs (λ rs i. (i.0, can_verify_of active.run i.1))
                (refuse_unchanged-Triple active.run)))
            (λ c.
              >>=-Triple
                (when-Triple _ (λ e.
                  needs (λ rs i. (i.0.0, can_verify_of active.run i.0.1))
                    (refuse_violations-Triple active.checkpoint active.work_order
                      active.context_plan active.run
                      (world.change_set active.work_order active.context_plan)
                      (some_violation _ e))))
                (λ d.
                  needs (λ rs i. (i.0.0.0, can_verify_of active.run i.0.0.1))
                    (after_checks active))))))
