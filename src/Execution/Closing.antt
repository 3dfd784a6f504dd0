-- ===== src/Execution/Closing.antt =====
-- Recording a verdict, completing a run and widening its context as steps in its life.
use Prim.Native.String.{String}
use uads.Common.{
  Bool, false, not, ◌&&◌, ◌||◌, List, [], ◌∷◌, Option, ◌==◌, string_eq, if◌then◌else◌, arith, ◌≡◌,
  refl, inl, inr,
}
use uads.Kernel.Types.{ContextRadius, WorkOrder}
use uads.Kernel.Execution.{
  ExecutionPhase, ExecutionRun, ExecutionStatus, execution_phase_eq, execution_status_eq,
}
use uads.Gates.Records.{EvidenceRecord, ReviewRecord}
use uads.Assurance.Types.{SelectionPlan}
use uads.Assurance.Binding.{is_nil}
use uads.Execution.Store.{Intel, World}
use uads.Execution.Run.{Active}
use uads.Execution.Review.{prepare_review, reviewed_run, run_assurance_record}
use uads.Execution.Reviewer.{ReviewInput}
use uads.Execution.Finalize.{
  complete, completed_run, finalize_blockers, finalize_open, run_finalize,
}
use uads.Execution.Expand.{expanded_run, run_context_expand}
use uads.Execution.Lifecycle.{
  by_expand, by_finalize, by_review, Course, finished, move, stage_of, stage_of_phase, stay,
}
use uads.Execution.Logic.{
  Runs, Triple, >>=-IsFrame, >>=-Triple, frame-Triple, if-Triple, needs, or_raise-IsFrame,
  pure-IsFrame, pure-Triple, raise_if-IsFrame, raise_if-Triple, read-IsFrame,
}
use uads.Execution.Steps.{IsKept, persist_execution_packet-IsFrame}
use uads.Execution.Frames.{
  assert_reviewer-IsFrame, compose_review-IsFrame, governor-IsFrame, list_evidence_records-IsFrame,
  list_review_records-IsFrame, persist_review_record-IsFrame, write_checkpoint-IsFrame,
}
use uads.Execution.Valid.{
  IsValid, completed_run-IsValid, expanded_run-IsValid, reviewed_run-IsValid,
}
use uads.Execution.Commands.{IsHeld, load_active-Triple}
use uads.Execution.Held.{Keeps, persist_next}
use uads.Execution.Moves.{at_review, reviewed-Course, reviewed_run-id}
use uads.Execution.Blockers.{nil_of_is_nil, run_blockers-phase, finalize_blockers-nil}

module _ (world : World) where
  blocked_nil :
      (blockers : List String) (s : ExecutionStatus)
      → (if not (is_nil blockers) && (s == ExecutionStatus.blocked) then blockers else []) ≡ []
      → s ≡ ExecutionStatus.blocked
      → blockers ≡ []
  blocked_nil [] s h e = refl
  blocked_nil (b ∷ bs) s h e = ground (arith, h, e)

  finishing :
      (p : ExecutionPhase) (s : ExecutionStatus)
      → ((p == ExecutionPhase.implement)
          || ((p == ExecutionPhase.verify) || (s == ExecutionStatus.correction_needed)))
        ≡ false
      → (p ≡ ExecutionPhase.stopped → ⊥)
      → Course by_finalize
          (stage_of_phase p s)
          (stage_of_phase ExecutionPhase.stopped ExecutionStatus.completed)
  finishing ExecutionPhase.implement s h n = cc h
  finishing ExecutionPhase.verify s h n = cc h
  finishing ExecutionPhase.review s h n = move finished stay
  finishing ExecutionPhase.stopped s h n = absurd (n refl)

  completed-Course :
      (order : WorkOrder) (run : ExecutionRun) (live : String) (evidence : List EvidenceRecord)
      (reviews : List ReviewRecord) (selection : Option SelectionPlan)
      → (run.status == ExecutionStatus.completed) ≡ false
      → IsValid run
      → finalize_blockers world order run live evidence reviews selection ≡ []
      → Course by_finalize (stage_of run) (stage_of (completed_run world run evidence))
  unfolding completed_run
  completed-Course order run live evidence reviews selection open_run valid h =
      let (first, b, c, d, e, f, g, own) =
        finalize_blockers-nil world order run live evidence reviews selection h in
      finishing run.phase run.status (run_blockers-phase world order run live first) (λ e.
        elim (valid.2 e) [
          | inl done ↦ ground (arith, open_run, done)
          | inr (blocked, reasons) ↦ reasons (blocked_nil run.blockers run.status own blocked)
        ])

  completed_run-id :
      (run : ExecutionRun) (evidence : List EvidenceRecord)
      → (completed_run world run evidence).execution_run_id ≡ run.execution_run_id
  unfolding completed_run
  completed_run-id run evidence = refl

  expanded_run-id :
      (run : ExecutionRun) (next : ContextRadius) (reason : String) (candidates : List String)
      (intel : Intel)
      → (expanded_run world run next reason candidates intel).execution_run_id
        ≡ run.execution_run_id
  unfolding expanded_run
  expanded_run-id run next reason candidates intel = refl

  expanded-Course :
      (run : ExecutionRun) (next : ContextRadius) (reason : String) (candidates : List String)
      (intel : Intel)
      → Course by_expand
          (stage_of run)
          (stage_of (expanded_run world run next reason candidates intel))
  unfolding expanded_run
  expanded-Course run next reason candidates intel = stay

module _ (world : World) (start : Runs) where
  prepare_review-Triple :
      (active : Active) (input : ReviewInput)
      → Triple
          (IsKept world (by_review, start))
          (IsHeld world (by_review, start) active.run)
          (prepare_review world active input)
          (λ r rs.
            IsHeld world (by_review, start) active.run rs
            × (active.run.phase ≡ ExecutionPhase.review))
  unfolding prepare_review
  prepare_review-Triple active input = >>=-Triple (raise_if-Triple _ _ (λ rs i. i.0.0)) (λ a.
      needs (λ rs i. (i.0, at_review world active.run i.1))
        (frame-Triple (λ rs i. i.0.0.0)
          (>>=-IsFrame (assert_reviewer-IsFrame world _ _ _)
            (λ bound. compose_review-IsFrame world active input bound))))

  pub run_assurance_record-Keeps :
      (input : ReviewInput) → Keeps world (by_review, start) (run_assurance_record world input)
  unfolding run_assurance_record
  run_assurance_record-Keeps input =
      >>=-Triple (load_active-Triple world (by_review, start)) (λ active.
        >>=-Triple (prepare_review-Triple active input) (λ r.
          >>=-Triple (frame-Triple (λ rs i. i.0.0.0) (persist_review_record-IsFrame world r)) (λ a.
            >>=-Triple
              (persist_next world (by_review, start) active.run (reviewed_run world active.run r) _
                (λ rs. active.run.phase ≡ ExecutionPhase.review)
                (reviewed_run-id world active.run r)
                (λ rs i. (
                  reviewed_run-IsValid world active.run r i.1 i.0.1,
                  reviewed-Course world active.run r i.1,
                )))
              (λ b.
                needs (λ rs i. i.0.0)
                  (frame-Triple (λ rs i. i)
                    (>>=-IsFrame (write_checkpoint-IsFrame world _ _ _) (λ c. pure-IsFrame _)))))))

  complete-Triple :
      (active : Active) (evidence : List EvidenceRecord) (known : Type 0)
      → (known
          → IsValid active.run
          → Course by_finalize
              (stage_of active.run)
              (stage_of (completed_run world active.run evidence)))
      → Triple
          (IsKept world (by_finalize, start))
          (λ rs. IsHeld world (by_finalize, start) active.run rs × known)
          (complete world active evidence)
          (λ a. IsKept world (by_finalize, start))
  unfolding complete
  complete-Triple active evidence known path =
      >>=-Triple
        (persist_next world (by_finalize, start) active.run
          (completed_run world active.run evidence) _ (λ rs. known)
          (completed_run-id world active.run evidence)
          (λ rs i. (completed_run-IsValid world active.run evidence, path i.1 i.0.1)))
        (λ a.
          needs (λ rs i. i.0.0)
            (frame-Triple (λ rs i. i)
              (>>=-IsFrame (write_checkpoint-IsFrame world _ _ _) (λ c. pure-IsFrame _))))

  finalize_open-Triple :
      (active : Active)
      → (active.run.status == ExecutionStatus.completed) ≡ false
      → Triple
          (IsKept world (by_finalize, start))
          (IsHeld world (by_finalize, start) active.run)
          (finalize_open world active)
          (λ a. IsKept world (by_finalize, start))
  finalize_open-Triple active open_run =
      >>=-Triple (frame-Triple (λ rs i. i.0.0) (list_evidence_records-IsFrame world _)) (λ evidence.
        >>=-Triple (frame-Triple (λ rs i. i.0.0) (list_review_records-IsFrame world _)) (λ reviews.
          >>=-Triple (frame-Triple (λ rs i. i.0.0) (read-IsFrame _)) (λ routing.
            >>=-Triple (raise_if-Triple _ _ (λ rs i. i.0.0)) (λ a.
              complete-Triple active evidence _ (λ h valid.
                completed-Course world active.work_order active.run _ evidence reviews _ open_run
                  valid (nil_of_is_nil _ h))))))

  pub run_finalize-Keeps : Keeps world (by_finalize, start) (run_finalize world)
  unfolding run_finalize
  run_finalize-Keeps = >>=-Triple (load_active-Triple world (by_finalize, start)) (λ active.
      if-Triple (active.run.status == ExecutionStatus.completed)
        (λ done. pure-Triple _ _ (λ rs i. i.0.0)) (finalize_open-Triple active))

  pub run_context_expand-Keeps :
      (reason : String) (approve_c5 : Bool)
      → Keeps world (by_expand, start) (run_context_expand world reason approve_c5)
  unfolding run_context_expand
  run_context_expand-Keeps reason approve_c5 =
      >>=-Triple (load_active-Triple world (by_expand, start)) (λ active.
        >>=-Triple (frame-Triple (λ rs i. i.0.0) (or_raise-IsFrame _ _)) (λ next.
          >>=-Triple (frame-Triple (λ rs i. i.0.0) (raise_if-IsFrame _ _)) (λ a.
            >>=-Triple (frame-Triple (λ rs i. i.0.0) (or_raise-IsFrame _ _)) (λ intel.
              >>=-Triple (frame-Triple (λ rs i. i.0.0) (governor-IsFrame _)) (λ b.
                >>=-Triple (frame-Triple (λ rs i. i.0.0) (governor-IsFrame _)) (λ c.
                  >>=-Triple
                    (frame-Triple (λ rs i. i.0.0)
                      (persist_execution_packet-IsFrame world (by_expand, start) _))
                    (λ packet.
                      >>=-Triple
                        (needs (λ rs i. (i, tt))
                          (persist_next world (by_expand, start) active.run
                            (expanded_run world active.run next reason _ intel) _ (λ rs. Unit {0})
                            (expanded_run-id world active.run next reason _ intel)
                            (λ rs i. (
                              expanded_run-IsValid world active.run next reason _ intel i.0.1,
                              expanded-Course world active.run next reason _ intel,
                            ))))
                        (λ d.
                          needs (λ rs i. i.0.0)
                            (frame-Triple (λ rs i. i)
                              (>>=-IsFrame (write_checkpoint-IsFrame world _ _ _)
                                (λ e. pure-IsFrame _)))))))))))
