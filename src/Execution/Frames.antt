-- ===== src/Execution/Frames.antt =====
-- The parts of the commands that leave the stored runs alone.
use Prim.Native.String.{String}
use uads.Common.{
  List, [], ◌∷◌, Option, none, some, ◌==◌, string_eq, ◌≡◌, refl, inl, inr, Bool-cases,
}
use uads.Kernel.Types.{Checkpoint, ContextPlan, RoutingDecision, WorkOrder}
use uads.Kernel.Execution.{ExecutionPacket, ExecutionRun}
use uads.Gates.Registry.{GateDef}
use uads.Gates.Records.{EvidenceRecord, ReviewFinding, ReviewRecord}
use uads.Cost.Types.{CostStore, Outcome, returns, throws}
use uads.Execution.Store.{
  Result, ReviewPacket, Store, World, governor, lift_outcome, returned, thrown,
}
use uads.Execution.Persist.{
  list_evidence_records, list_review_records, persist_evidence_record, persist_plan,
  persist_review_packet, persist_review_record, write_checkpoint,
}
use uads.Execution.Run.{Active, assert_active_execution_consistency}
use uads.Execution.Verify.{persist_hits}
use uads.Execution.Record.{evidence_id_for, lift_proof, proof_of, prove_evidence}
use uads.Execution.Contract.{
  EvidenceInput, Proof, assert_pass_contract, assert_recordable_gate, or_unknown,
}
use uads.Execution.Assure.{assert_current_selection}
use uads.Execution.Review.{compose_review}
use uads.Execution.Reviewer.{ReviewInput, assert_reviewer, distinct_reviewer, parsed}
use uads.Execution.Logic.{
  IsFrame, >>=-IsFrame, or_raise-IsFrame, pure-IsFrame, raise-IsFrame, raise_if-IsFrame,
  read-IsFrame, when-IsFrame, write-IsFrame,
}

lifted : {A : Type 0} (s : Store) (o : Outcome A) → (lift_outcome s o).1.runs ≡ s.runs
lifted s (returns costs a) = refl
lifted s (throws costs e) = refl

pub governor-IsFrame : {A : Type 0} (call : CostStore → Outcome A) → IsFrame (governor call)
governor-IsFrame call = record { same_runs = λ s. lifted s (call s.costs) }

or_unknown-IsFrame : (o : Option GateDef) (id : String) → IsFrame (or_unknown o id)
or_unknown-IsFrame none id = raise-IsFrame _
or_unknown-IsFrame (some g) id = pure-IsFrame g

assert_recordable_gate-IsFrame :
    (run : ExecutionRun) (id : String) → IsFrame (assert_recordable_gate run id)
unfolding assert_recordable_gate
assert_recordable_gate-IsFrame run id = >>=-IsFrame (raise_if-IsFrame _ _) (λ a.
    >>=-IsFrame (raise_if-IsFrame _ _) (λ b.
      >>=-IsFrame (or_unknown-IsFrame _ _)
        (λ def. >>=-IsFrame (raise_if-IsFrame _ _) (λ c. pure-IsFrame def))))

assert_pass_contract-IsFrame : (def : GateDef) (p : Proof) → IsFrame (assert_pass_contract def p)
unfolding assert_pass_contract
assert_pass_contract-IsFrame def p = >>=-IsFrame (raise_if-IsFrame _ _) (λ a.
    >>=-IsFrame (raise_if-IsFrame _ _)
      (λ b. >>=-IsFrame (raise_if-IsFrame _ _) (λ c. raise_if-IsFrame _ _)))

lift_proof-IsFrame : (p : Result (String × String)) → IsFrame (lift_proof p)
lift_proof-IsFrame (returned a) = pure-IsFrame _
lift_proof-IsFrame (thrown e) = raise-IsFrame e

proof_of-IsFrame :
    (prove : String → Result (String × String)) (path : Option String)
    → IsFrame (proof_of prove path)
proof_of-IsFrame prove none = pure-IsFrame _
proof_of-IsFrame prove (some path) = elim (Bool-cases (path == "")) [
  | inl blank ↦ rw blank (pure-IsFrame _)
  | inr filled ↦ rw filled (lift_proof-IsFrame (prove path))
]

module _ (world : World) where
  pub persist_evidence_record-IsFrame :
      (r : EvidenceRecord) → IsFrame (persist_evidence_record world r)
  unfolding persist_evidence_record
  persist_evidence_record-IsFrame r =
      >>=-IsFrame (raise_if-IsFrame _ _) (λ a. write-IsFrame _ (λ s. refl))

  pub persist_review_record-IsFrame : (r : ReviewRecord) → IsFrame (persist_review_record world r)
  unfolding persist_review_record
  persist_review_record-IsFrame r =
      >>=-IsFrame (raise_if-IsFrame _ _) (λ a. write-IsFrame _ (λ s. refl))

  pub persist_review_packet-IsFrame : (p : ReviewPacket) → IsFrame (persist_review_packet world p)
  unfolding persist_review_packet
  persist_review_packet-IsFrame p =
      >>=-IsFrame (raise_if-IsFrame _ _) (λ a. write-IsFrame _ (λ s. refl))

  pub list_evidence_records-IsFrame : (id : String) → IsFrame (list_evidence_records world id)
  unfolding list_evidence_records
  list_evidence_records-IsFrame id = read-IsFrame _

  pub list_review_records-IsFrame : (id : String) → IsFrame (list_review_records world id)
  unfolding list_review_records
  list_review_records-IsFrame id = read-IsFrame _

  persist_plan-IsFrame :
      (order : WorkOrder) (decision : RoutingDecision) (c : Checkpoint) (plan : ContextPlan)
      → IsFrame (persist_plan world order decision c plan)
  unfolding persist_plan
  persist_plan-IsFrame order decision c plan =
      >>=-IsFrame (raise_if-IsFrame _ _) (λ a. write-IsFrame _ (λ s. refl))

  pub write_checkpoint-IsFrame :
      (c : Checkpoint) (order : WorkOrder) (plan : ContextPlan)
      → IsFrame (write_checkpoint world c order plan)
  unfolding write_checkpoint
  write_checkpoint-IsFrame c order plan = >>=-IsFrame (read-IsFrame _) (λ found.
      >>=-IsFrame (or_raise-IsFrame _ _) (λ routing. persist_plan-IsFrame order routing c plan))

  pub persist_hits-IsFrame : (rs : List EvidenceRecord) → IsFrame (persist_hits world rs)
  persist_hits-IsFrame [] = pure-IsFrame tt
  persist_hits-IsFrame (r ∷ rs) =
      >>=-IsFrame (persist_evidence_record-IsFrame r) (λ a. persist_hits-IsFrame rs)

  pub assert_active_execution_consistency-IsFrame :
      (c : Checkpoint) (order : WorkOrder) (routing : RoutingDecision) (run : ExecutionRun)
      (packet : ExecutionPacket)
      → IsFrame (assert_active_execution_consistency world c order routing run packet)
  unfolding assert_active_execution_consistency
  assert_active_execution_consistency-IsFrame c order routing run packet =
      >>=-IsFrame
        (>>=-IsFrame (>>=-IsFrame (raise_if-IsFrame _ _) (λ a. raise_if-IsFrame _ _))
          (λ a. raise_if-IsFrame _ _))
        (λ a. raise_if-IsFrame _ _)

  pub assert_current_selection-IsFrame :
      (order : WorkOrder) (plan : ContextPlan) → IsFrame (assert_current_selection world order plan)
  unfolding assert_current_selection
  assert_current_selection-IsFrame order plan =
      >>=-IsFrame (read-IsFrame _) (λ routing. or_raise-IsFrame _ _)

  -- The evidence is prepared once its run is known to be open for it.
  pub prove_evidence-IsFrame :
      (run : ExecutionRun) (input : EvidenceInput) → IsFrame (prove_evidence world run input)
  unfolding prove_evidence
  prove_evidence-IsFrame run input = >>=-IsFrame (assert_recordable_gate-IsFrame _ _) (λ def.
      >>=-IsFrame (raise_if-IsFrame _ _) (λ a. >>=-IsFrame (raise_if-IsFrame _ _) (λ b.
        >>=-IsFrame
          (proof_of-IsFrame (world.copy_output run (evidence_id_for world run input))
            input.output_path)
          (λ copied. >>=-IsFrame (proof_of-IsFrame world.hash_file input.file) (λ file.
            >>=-IsFrame (when-IsFrame _ _ (assert_pass_contract-IsFrame def _))
              (λ c. pure-IsFrame _))))))

parsed-IsFrame : (fs : Result (List ReviewFinding)) → IsFrame (parsed fs)
parsed-IsFrame (returned fs) = pure-IsFrame fs
parsed-IsFrame (thrown e) = raise-IsFrame e

module _ (world : World) where
  -- The record of a review is composed once its run is known to be under review.
  pub compose_review-IsFrame :
      (active : Active) (input : ReviewInput) (bound : String)
      → IsFrame (compose_review world active input bound)
  unfolding compose_review
  compose_review-IsFrame active input bound =
      >>=-IsFrame (list_evidence_records-IsFrame world _) (λ evidence.
        >>=-IsFrame (list_review_records-IsFrame world _) (λ reviews.
          >>=-IsFrame (assert_current_selection-IsFrame world _ _) (λ selection.
            >>=-IsFrame (parsed-IsFrame _)
              (λ findings. >>=-IsFrame (raise_if-IsFrame _ _) (λ a. pure-IsFrame _)))))

  distinct_reviewer-IsFrame :
      (run : ExecutionRun) (input : ReviewInput) (bound : String)
      → IsFrame (distinct_reviewer world run input bound)
  unfolding distinct_reviewer
  distinct_reviewer-IsFrame run input bound = >>=-IsFrame (raise_if-IsFrame _ _) (λ a.
      >>=-IsFrame (raise_if-IsFrame _ _) (λ b. >>=-IsFrame (raise_if-IsFrame _ _) (λ c.
        >>=-IsFrame (raise_if-IsFrame _ _)
          (λ d. >>=-IsFrame (raise_if-IsFrame _ _) (λ e. pure-IsFrame bound)))))

  pub assert_reviewer-IsFrame :
      (order : WorkOrder) (run : ExecutionRun) (input : ReviewInput)
      → IsFrame (assert_reviewer world order run input)
  unfolding assert_reviewer
  assert_reviewer-IsFrame order run input = >>=-IsFrame (raise_if-IsFrame _ _) (λ a.
      >>=-IsFrame (raise_if-IsFrame _ _) (λ b. >>=-IsFrame (raise_if-IsFrame _ _) (λ c.
        >>=-IsFrame (raise_if-IsFrame _ _) (λ d.
          >>=-IsFrame (or_raise-IsFrame _ _)
            (λ bound. distinct_reviewer-IsFrame run input bound)))))
