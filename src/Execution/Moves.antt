-- ===== src/Execution/Moves.antt =====
-- Recording evidence and starting a review as steps in the life of a run.
use Prim.Native.String.{String}
use uads.Common.{false, not, ◌&&◌, List, none, ◌==◌, string_eq, arith, ◌≡◌, refl}
use uads.Kernel.Types.{Checkpoint, ContextPlan, WorkOrder}
use uads.Kernel.Execution.{
  ExecutionPhase, ExecutionRun, ExecutionStatus, execution_phase_eq, execution_status_eq,
}
use uads.Gates.Records.{EvidenceRecord, GateStateSnapshot, ReviewRecord, ReviewVerdict}
use uads.Execution.Store.{ReviewPacket, World, ◌>>=◌, pure}
use uads.Execution.Persist.{persist_execution_run, write_checkpoint}
use uads.Execution.Record.{
  file_evidence, is_closed_for_evidence, prepare_evidence, recorded_run, run_evidence_record,
}
use uads.Execution.Contract.{EvidenceInput}
use uads.Execution.Assure.{reviewing_run, run_assurance_start}
use uads.Execution.Review.{reviewed_run, run_on_verdict, with_review}
use uads.Execution.Lifecycle.{
  by_review, by_evidence, by_start, Course, move, review_corrected, review_refused, review_started,
  stage_of, stage_of_phase, stay,
}
use uads.Execution.Logic.{
  Runs, Triple, >>=-IsFrame, >>=-Triple, frame-Triple, needs, pure-IsFrame, raise_if-IsFrame,
  raise_if-Triple,
}
use uads.Execution.Steps.{IsKept}
use uads.Execution.Frames.{
  assert_current_selection-IsFrame, governor-IsFrame, list_evidence_records-IsFrame,
  list_review_records-IsFrame, persist_evidence_record-IsFrame, persist_review_packet-IsFrame,
  prove_evidence-IsFrame, write_checkpoint-IsFrame,
}
use uads.Execution.Valid.{recorded_run-IsValid, reviewing_run-IsValid}
use uads.Execution.Commands.{IsHeld, load_active-Triple}
use uads.Execution.Held.{Keeps, persist_next}

module _ (world : World) where
  recorded_run-id :
      (run : ExecutionRun) (r : EvidenceRecord) (gates : List GateStateSnapshot)
      → (recorded_run world run r gates).execution_run_id ≡ run.execution_run_id
  unfolding recorded_run
  recorded_run-id run r gates = refl

  recorded-Course :
      (run : ExecutionRun) (r : EvidenceRecord) (gates : List GateStateSnapshot)
      → Course by_evidence (stage_of run) (stage_of (recorded_run world run r gates))
  unfolding recorded_run
  recorded-Course run r gates = stay

  reviewing_run-id :
      (run : ExecutionRun) (packet : ReviewPacket)
      → (reviewing_run world run packet).execution_run_id ≡ run.execution_run_id
  unfolding reviewing_run
  reviewing_run-id run packet = refl

  started :
      (p : ExecutionPhase) (s : ExecutionStatus)
      → (not (p == ExecutionPhase.verify) && not (p == ExecutionPhase.review)) ≡ false
      → Course by_start
          (stage_of_phase p s)
          (stage_of_phase ExecutionPhase.review ExecutionStatus.in_progress)
  started ExecutionPhase.implement s h = cc h
  started ExecutionPhase.verify s h = move review_started stay
  started ExecutionPhase.review s h = stay
  started ExecutionPhase.stopped s h = cc h

  reviewing-Course :
      (run : ExecutionRun) (packet : ReviewPacket)
      → (not (run.phase == ExecutionPhase.verify) && not (run.phase == ExecutionPhase.review))
        ≡ false
      → Course by_start (stage_of run) (stage_of (reviewing_run world run packet))
  unfolding reviewing_run
  reviewing-Course run packet h = started run.phase run.status h

  verdict-Course :
      (k : ReviewVerdict) (run : ExecutionRun) (role : String)
      → run.phase ≡ ExecutionPhase.review
      → Course by_review (stage_of run) (stage_of (run_on_verdict world k run role))
  verdict-Course ReviewVerdict.correction_needed run role h = rw h (move review_corrected stay)
  verdict-Course ReviewVerdict.review_blocked run role h = rw h (move review_refused stay)
  verdict-Course ReviewVerdict.approved run role h = stay

  verdict_id :
      (k : ReviewVerdict) (run : ExecutionRun) (role : String)
      → (run_on_verdict world k run role).execution_run_id ≡ run.execution_run_id
  verdict_id ReviewVerdict.correction_needed run role = refl
  verdict_id ReviewVerdict.review_blocked run role = refl
  verdict_id ReviewVerdict.approved run role = refl

  pub reviewed_run-id :
      (run : ExecutionRun) (r : ReviewRecord)
      → (reviewed_run world run r).execution_run_id ≡ run.execution_run_id
  unfolding reviewed_run
  reviewed_run-id run r = verdict_id r.verdict (with_review world run r) r.reviewer_role

  pub reviewed-Course :
      (run : ExecutionRun) (r : ReviewRecord)
      → run.phase ≡ ExecutionPhase.review
      → Course by_review (stage_of run) (stage_of (reviewed_run world run r))
  unfolding reviewed_run
  reviewed-Course run r h = verdict-Course r.verdict (with_review world run r) r.reviewer_role h

  pub at_review :
      (run : ExecutionRun)
      → not (run.phase == ExecutionPhase.review) ≡ false
      → run.phase ≡ ExecutionPhase.review
  at_review run h = ground (arith, h)

module _ (world : World) (start : Runs) where
  prepare_evidence-Triple :
      (run : ExecutionRun) (input : EvidenceInput)
      → Triple
          (IsKept world (by_evidence, start))
          (IsHeld world (by_evidence, start) run)
          (prepare_evidence world run input)
          (λ a rs.
            IsHeld world (by_evidence, start) run rs × (is_closed_for_evidence world run ≡ false))
  unfolding prepare_evidence
  prepare_evidence-Triple run input =
      >>=-Triple (frame-Triple (λ rs i. i.0.0) (raise_if-IsFrame _ _)) (λ a.
        >>=-Triple (raise_if-Triple _ _ (λ rs i. i.0.0))
          (λ b. frame-Triple (λ rs i. i.0.0.0) (prove_evidence-IsFrame world run input)))

  pub run_evidence_record-Keeps :
      (input : EvidenceInput) → Keeps world (by_evidence, start) (run_evidence_record world input)
  unfolding run_evidence_record file_evidence
  run_evidence_record-Keeps input =
      >>=-Triple (load_active-Triple world (by_evidence, start)) (λ active.
        >>=-Triple (prepare_evidence-Triple active.run input) (λ r.
          >>=-Triple (frame-Triple (λ rs i. i.0.0.0) (persist_evidence_record-IsFrame world r))
            (λ a. >>=-Triple (frame-Triple (λ rs i. i.0.0.0) (governor-IsFrame _)) (λ b.
              >>=-Triple (frame-Triple (λ rs i. i.0.0.0) (list_evidence_records-IsFrame world _))
                (λ evidence.
                  >>=-Triple (frame-Triple (λ rs i. i.0.0.0) (list_review_records-IsFrame world _))
                    (λ reviews.
                      >>=-Triple
                        (persist_next world (by_evidence, start) active.run
                          (recorded_run world active.run r _) none
                          (λ rs. is_closed_for_evidence world active.run ≡ false)
                          (recorded_run-id world active.run r _)
                          (λ rs i. (
                            recorded_run-IsValid world active.run r _ i.1 i.0.1,
                            recorded-Course world active.run r _,
                          )))
                        (λ c.
                          needs (λ rs i. i.0.0)
                            (frame-Triple (λ rs i. i)
                              (>>=-IsFrame (write_checkpoint-IsFrame world _ _ _)
                                (λ d. pure-IsFrame _))))))))))

  start_review :
      (run : ExecutionRun) (packet : ReviewPacket) (c : Checkpoint) (order : WorkOrder)
      (plan : ContextPlan) (answer : ExecutionRun × ReviewPacket)
      → Triple
          (IsKept world (by_start, start))
          (λ rs.
            IsHeld world (by_start, start) run rs
            × ((not (run.phase == ExecutionPhase.verify)
                  && not (run.phase == ExecutionPhase.review))
                ≡ false))
          (persist_execution_run world (reviewing_run world run packet) none >>= λ a.
            write_checkpoint world c order plan >>= λ b. pure answer)
          (λ a. IsKept world (by_start, start))
  start_review run packet c order plan answer =
      >>=-Triple
        (persist_next world (by_start, start) run (reviewing_run world run packet) none
          (λ rs.
            (not (run.phase == ExecutionPhase.verify) && not (run.phase == ExecutionPhase.review))
            ≡ false)
          (reviewing_run-id world run packet)
          (λ rs i. (
            reviewing_run-IsValid world run packet i.1 i.0.1,
            reviewing-Course world run packet i.1,
          )))
        (λ a.
          needs (λ rs i. i.0.0)
            (frame-Triple (λ rs i. i)
              (>>=-IsFrame (write_checkpoint-IsFrame world _ _ _) (λ b. pure-IsFrame _))))

  pub run_assurance_start-Keeps : Keeps world (by_start, start) (run_assurance_start world)
  unfolding run_assurance_start
  run_assurance_start-Keeps = >>=-Triple (load_active-Triple world (by_start, start)) (λ active.
      >>=-Triple (raise_if-Triple _ _ (λ rs i. i.0.0)) (λ a.
        >>=-Triple (frame-Triple (λ rs i. i.0.0.0) (raise_if-IsFrame _ _)) (λ b.
          >>=-Triple (frame-Triple (λ rs i. i.0.0.0) (list_evidence_records-IsFrame world _))
            (λ evidence.
              >>=-Triple (frame-Triple (λ rs i. i.0.0.0) (list_review_records-IsFrame world _))
                (λ reviews. >>=-Triple (frame-Triple (λ rs i. i.0.0.0) (raise_if-IsFrame _ _)) (λ c.
                  >>=-Triple
                    (frame-Triple (λ rs i. i.0.0.0) (assert_current_selection-IsFrame world _ _))
                    (λ selection.
                      >>=-Triple (frame-Triple (λ rs i. i.0.0.0) (raise_if-IsFrame _ _)) (λ d.
                        >>=-Triple
                          (frame-Triple (λ rs i. i.0.0.0) (persist_review_packet-IsFrame world _))
                          (λ e. start_review active.run _ _ _ _ _)))))))))
