-- ===== src/Execution/Run.antt =====
-- What every command of src/kernel/execution.ts shares: the active run with its artifacts, the
-- packet of a run, and the gate states of a run.
use uads.Common.{
  Bool, false, not, ◌||◌, List, [], ◌∷◌, ◌++◌, Option, none, some, contains, ◌==◌, string_eq,
  if◌then◌else◌,
}
use uads.Common.Nullable.{has_text, same_nullable}
use uads.Kernel.Types.{Checkpoint, ContextPlan, RoutingDecision, WorkOrder, implementer_role}
use uads.Kernel.Execution.{ExecutionPacket, ExecutionRun}
use uads.Model.Types.{ModelSelectionMode, host_managed}
use uads.Gates.Records.{EvidenceRecord, GateStateSnapshot, ReviewRecord}
use uads.Gates.States.{Validation, derive_gate_states}
use uads.Execution.Store.{
  Action, ExecutionError, Store, World, ◌>>=◌, ◌>>◌, execution_blocked, invalid_orchestration_state,
  or_raise, pure, raise_if, read,
}
use uads.Execution.Persist.{current_run}

unfoldable pub requires_implementation : WorkOrder → Bool
requires_implementation order = contains order.specialists implementer_role

abbrev or_host_managed : Option ModelSelectionMode → ModelSelectionMode
or_host_managed none = host_managed
or_host_managed (some m) = m

unfoldable pub build_packet : ExecutionRun → WorkOrder → ExecutionPacket
build_packet run order = record {
  execution_run_id = run.execution_run_id;
  work_order_id = order.work_order_id;
  objective = order.objective;
  included_scope = order.included_scope;
  out_of_scope = order.out_of_scope;
  risk_level = order.risk_level;
  domains = order.domains;
  context_radius = run.context_radius;
  context_candidates = run.context_candidates;
  specialists = order.specialists;
  assurance_reviewers = order.assurance_reviewers;
  selected_gates = run.selected_gates;
  acceptance_criteria = order.acceptance_criteria;
  required_evidence = order.required_evidence;
  safe_autonomous_actions = order.safe_autonomous;
  approval_gated_actions = order.requires_approval;
  stop_conditions =
      order.stop_conditions
      ++ ("Begin from Work Order, checkpoint, compact repository map, Context Pack, and context candidates before source files."
          ∷ []);
  baseline_git_head = run.baseline.git_head;
  next_action = run.next_action;
  context_pack_id = run.context_pack_id;
  impact_report_id = run.impact_report_id;
  index_digest = run.index_digest;
  model_plan_id = run.model_plan_id;
  selected_profile_id = run.selected_profile_id;
  selected_provider_id = run.selected_provider_id;
  selected_model_id = run.selected_model_id;
  selection_mode = or_host_managed run.selection_mode;
  model_execution_strategy = run.model_execution_strategy;
}

-- What `loadActive` finds.
pub record Active : Type 0 where
  pub checkpoint : Checkpoint
  pub work_order : WorkOrder
  pub context_plan : ContextPlan
  pub run : ExecutionRun

abbrev has_order : Option Checkpoint → Bool
has_order none = false
has_order (some c) = has_text c.work_order_id

abbrev order_at : Option Checkpoint → Store → Option WorkOrder
order_at none s = none
order_at (some c) s = elim c.work_order_id [ none ↦ none | some id ↦ s.work_orders id ]

abbrev decision_at : Option Checkpoint → Store → Option RoutingDecision
decision_at none s = none
decision_at (some c) s = elim c.routing_decision_id [
  | none ↦ none
  | some id ↦ if id == "" then none else s.routing_decisions id
]

module _ (world : World) where
  -- `assertActiveExecutionConsistency` of src/kernel/execution-integrity.ts
  unfoldable pub assert_active_execution_consistency :
      Checkpoint → WorkOrder → RoutingDecision → ExecutionRun → ExecutionPacket → Action (Unit {0})
  assert_active_execution_consistency c order routing run packet =
      raise_if
        (not (world.project_id == c.project_id)
          || (not (world.project_id == order.project_id)
              || (not (world.project_id == routing.project_id)
                  || not (world.project_id == run.project_id))))
        (invalid_orchestration_state "execution artifacts have conflicting projectId")
      >> raise_if
          (not (has_text c.work_order_id)
            || (not (same_nullable c.work_order_id (some order.work_order_id))
                || not (order.work_order_id == run.work_order_id)))
          (invalid_orchestration_state "execution artifacts have conflicting workOrderId")
      >> raise_if
          (not (has_text c.routing_decision_id)
            || (not (same_nullable c.routing_decision_id (some order.routing_decision_id))
                || (not (order.routing_decision_id == run.routing_decision_id)
                    || not (routing.routing_decision_id == run.routing_decision_id))))
          (invalid_orchestration_state "execution artifacts have conflicting routingDecisionId")
      >> raise_if
          (not (packet.execution_run_id == run.execution_run_id)
            || not (packet.work_order_id == run.work_order_id))
          (invalid_orchestration_state "execution packet does not match the active run")

  abbrev no_run : ExecutionError
  no_run = execution_blocked "no active execution run" ("dispatch has not succeeded" ∷ [])

  abbrev no_plan : ExecutionError
  no_plan = invalid_orchestration_state "Work Order, routing decision, or context plan missing"

  -- The packet that the run must have, and the consistency of all.
  unfoldable pub with_packet :
      ExecutionRun → Checkpoint → WorkOrder → ContextPlan → RoutingDecision → Action Active
  with_packet run c order plan routing = do
    some_packet ← read (λ s. s.packets run.execution_run_id)
    packet ←
        or_raise some_packet (invalid_orchestration_state "execution packet missing for active run")
    assert_active_execution_consistency c order routing run packet
    pure (record { checkpoint = c; work_order = order; context_plan = plan; run = run })

  unfoldable pub load_artifacts : ExecutionRun → Option Checkpoint → Action Active
  load_artifacts run found = do
    c ← or_raise found no_run
    some_order ← read (order_at found)
    some_plan ← read (λ s. s.context_plan)
    some_routing ← read (decision_at found)
    order ← or_raise some_order no_plan
    plan ← or_raise some_plan no_plan
    routing ← or_raise some_routing no_plan
    with_packet run c order plan routing

  unfoldable pub load_active : Action Active
  load_active = do
    found ← read (λ s. s.checkpoint)
    present ← read (current_run world)
    raise_if (not (has_order found)) no_run
    run ← or_raise present no_run
    load_artifacts run found

  abbrev pub validation_of : ExecutionRun → Validation
  validation_of run = record {
    project_id = world.project_id;
    work_order_id = some (some run.work_order_id);
    execution_run_id = some (some run.execution_run_id);
  }

  -- `deriveGateStates` of a run, as every command calls it
  unfoldable pub gate_states_of :
      ExecutionRun → List EvidenceRecord → List ReviewRecord → List GateStateSnapshot
  gate_states_of run evidence reviews =
      derive_gate_states world.valid_reuse run.selected_gates run.current_change_digest evidence
        reviews (some (validation_of run))
