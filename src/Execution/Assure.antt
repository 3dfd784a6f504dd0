-- ===== src/Execution/Assure.antt =====
-- `runAssuranceStart` of src/kernel/execution.ts.
use uads.Common.{
  Bool, true, false, not, ◌&&◌, List, [], ◌∷◌, ◌++◌, Option, none, some, map, filter, ◌==◌,
  string_eq, ◌&◌,
}
use uads.Common.Nullable.{has_text, or_text}
use uads.Kernel.Types.{CheckpointStatus, ContextPlan, Phase, WorkOrder}
use uads.Kernel.Execution.{
  ExecutionPhase, ExecutionRun, ExecutionStatus, execution_phase_eq, execution_status_eq,
}
use uads.Kernel.Ids.{unique}
use uads.Gates.Registry.{is_review_gate}
use uads.Gates.Records.{
  EvidenceRecord, GateRuntimeStatus, GateStateSnapshot, ReviewRecord, verdict_eq,
}
use uads.Assurance.Types.{
  AssuranceMode, AssurancePolicyInput, AssurancePolicyResult, PolicyEnv, SelectionPlan,
}
use uads.Assurance.Roles.{ReasonCode, assurance_role_gate_mapping, code_text}
use uads.Assurance.Binding.{is_nil}
use uads.Assurance.Policy.{evaluate_assurance_policy, gate_status_text}
use uads.Execution.Store.{
  Action, ReviewPacket, World, ◌>>=◌, ◌>>◌, execution_blocked, or_raise, pure, raise_if, read,
}
use uads.Execution.Persist.{
  list_evidence_records, list_review_records, persist_execution_run, persist_review_packet,
  write_checkpoint,
}
use uads.Execution.Run.{gate_states_of, load_active}
use uads.Execution.Verify.{phase_text}

abbrev is_gate_passing : GateStateSnapshot → Bool
is_gate_passing s = elim s.status [
  | GateRuntimeStatus.pass ↦ true
  | GateRuntimeStatus.pending ↦ false
  | GateRuntimeStatus.fail ↦ false
  | GateRuntimeStatus.blocked ↦ false
]

-- A gate that no reviewer decides and that is not at PASS.
abbrev pub is_open_gate : GateStateSnapshot → Bool
is_open_gate s = not (is_review_gate s.gate_id) && not (is_gate_passing s)

module _ (world : World) where
  abbrev pub policy_env : PolicyEnv
  policy_env = record { locale_compare = world.locale_compare; plan_digest = world.plan_digest }

  -- `assertCurrentSpecialistSelectionForAssurance`
  unfoldable pub assert_current_selection : WorkOrder → ContextPlan → Action SelectionPlan
  assert_current_selection order plan = do
    routing ← read (λ s. s.routing_decisions order.routing_decision_id)
    or_raise (world.bound_selection order routing plan) (
        execution_blocked "assurance requires current specialist selection"
          (code_text ReasonCode.specialist_selection_invalid ∷ []))

  abbrev pub policy_input :
      AssuranceMode
      → WorkOrder
      → ExecutionRun
      → List GateStateSnapshot
      → List EvidenceRecord
      → List ReviewRecord
      → Option ReviewRecord
      → Option SelectionPlan
      → AssurancePolicyInput
  policy_input mode order run gates evidence reviews candidate selection = record {
    mode = mode;
    project_id = world.project_id;
    work_order = order;
    run = run;
    gate_states = gates;
    evidence = evidence;
    reviews = reviews;
    candidate = candidate;
    specialist_selection_plan = selection;
  }

  unfoldable pub review_packet_of :
      WorkOrder → ExecutionRun → List GateStateSnapshot → AssurancePolicyResult → ReviewPacket
  review_packet_of order run gates status = record {
    execution_run_id = run.execution_run_id;
    work_order_id = run.work_order_id;
    objective = order.objective;
    acceptance_criteria = order.acceptance_criteria;
    included_scope = order.included_scope;
    out_of_scope = order.out_of_scope;
    changed_files = run.changed_files;
    change_digest = or_text run.current_change_digest "";
    gate_states = gates;
    evidence_refs = status.current_evidence_refs;
    required_reviewers = run.required_reviewers;
    role_to_gate_mapping = assurance_role_gate_mapping run.selected_gates;
    required_evidence_obligations = order.required_evidence;
    unresolved_blockers =
        status.blockers
        ++ map (λ role. code_text ReasonCode.missing_required_reviewer & ":" & role)
            status.pending_roles;
    next_action =
        "Invoke distinct reviewer session(s). Do not self-approve. Record verdicts with uads assurance record.";
  }

  unfoldable pub reviewing_run : ExecutionRun → ReviewPacket → ExecutionRun
  reviewing_run run packet = record run {
    phase = ExecutionPhase.review;
    status = ExecutionStatus.in_progress;
    next_action = packet.next_action;
    updated_at = world.now;
  }

  unfoldable pub run_assurance_start : Action (ExecutionRun × ReviewPacket)
  run_assurance_start = do
    active ← load_active world
    let run = active.run
    let order = active.work_order
    raise_if (not (run.phase == ExecutionPhase.verify) && not (run.phase == ExecutionPhase.review))
        (execution_blocked "assurance start requires verify phase"
          (("phase is " & phase_text run.phase) ∷ []))
    raise_if (not (has_text run.current_change_digest)) (
        execution_blocked "assurance start requires a current change digest"
          ("missing change digest" ∷ []))
    evidence ← list_evidence_records world run.execution_run_id
    reviews ← list_review_records world run.execution_run_id
    let gates = gate_states_of world run evidence reviews
    let open_gates = filter is_open_gate gates
    raise_if (not (is_nil open_gates)) (
        execution_blocked "selected non-review gates are not PASS"
          (map (λ (s : GateStateSnapshot). s.gate_id & ":" & gate_status_text s.status) open_gates))
    selection ← assert_current_selection order active.context_plan
    let status =
        evaluate_assurance_policy policy_env
          (policy_input AssuranceMode.status order run gates evidence reviews none (some selection))
    raise_if (not status.allowed)
        (execution_blocked "assurance prerequisites are not valid" status.blockers)
    let packet = review_packet_of order run gates status
    persist_review_packet world packet
    let updated = reviewing_run run packet
    persist_execution_run world updated none
    write_checkpoint world
        (record active.checkpoint {
          updated_at = world.now;
          phase = Phase.review;
          status = CheckpointStatus.in_progress;
          completed_steps = unique (active.checkpoint.completed_steps ++ ("assurance-start" ∷ []));
          next_action = packet.next_action;
          resume_cursor = "review:await-verdicts";
        })
        order active.context_plan
    pure (updated, packet)
