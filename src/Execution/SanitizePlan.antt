-- ===== src/Execution/SanitizePlan.antt =====
-- `sanitizeOperationalValue` of src/lib/safe-persist.ts at the records of a plan.
use Prim.Native.String.{String}
use uads.Common.Nullable.{map_text}
use uads.Common.{map}
use uads.Kernel.Types.{Checkpoint, ContextPlan, RoutingDecision, WorkOrder}
use uads.Execution.Sanitize.{sanitize_pair}

unfoldable pub sanitize_checkpoint : (String → String) → Checkpoint → Checkpoint
sanitize_checkpoint redact c = record {
  checkpoint_id = redact c.checkpoint_id;
  project_id = redact c.project_id;
  work_order_id = map_text redact c.work_order_id;
  routing_decision_id = map_text redact c.routing_decision_id;
  created_at = redact c.created_at;
  updated_at = redact c.updated_at;
  phase = c.phase;
  status = c.status;
  completed_steps = map redact c.completed_steps;
  next_action = redact c.next_action;
  blockers = map redact c.blockers;
  evidence_refs = map redact c.evidence_refs;
  repository_map_digest = map_text redact c.repository_map_digest;
  context_plan_ref = map_text redact c.context_plan_ref;
  resume_cursor = redact c.resume_cursor;
}

unfoldable pub sanitize_work_order : (String → String) → WorkOrder → WorkOrder
sanitize_work_order redact w = record {
  work_order_id = redact w.work_order_id;
  project_id = redact w.project_id;
  title = redact w.title;
  objective = redact w.objective;
  status = w.status;
  scope_class = w.scope_class;
  included_scope = map redact w.included_scope;
  out_of_scope = map redact w.out_of_scope;
  recommendations = map redact w.recommendations;
  risk_level = w.risk_level;
  risk_reasons = map redact w.risk_reasons;
  domains = map redact w.domains;
  affected_areas = map redact w.affected_areas;
  specialists = map redact w.specialists;
  assurance_reviewers = map redact w.assurance_reviewers;
  quality_gates = map redact w.quality_gates;
  context_radius = w.context_radius;
  token_budget = w.token_budget;
  dependencies = map redact w.dependencies;
  acceptance_criteria = map redact w.acceptance_criteria;
  required_evidence = map redact w.required_evidence;
  stop_conditions = map redact w.stop_conditions;
  routing_decision_id = redact w.routing_decision_id;
  safe_autonomous = map redact w.safe_autonomous;
  requires_approval = map redact w.requires_approval;
  next_action = redact w.next_action;
}

unfoldable pub sanitize_routing : (String → String) → RoutingDecision → RoutingDecision
sanitize_routing redact d = record {
  routing_decision_id = redact d.routing_decision_id;
  project_id = redact d.project_id;
  created_at = redact d.created_at;
  scope_class = d.scope_class;
  scope_reasons = map redact d.scope_reasons;
  risk_level = d.risk_level;
  risk_reasons = map redact d.risk_reasons;
  domains = map (sanitize_pair redact) d.domains;
  specialists = map redact d.specialists;
  assurance_specialists = map redact d.assurance_specialists;
  gates = map (sanitize_pair redact) d.gates;
  context_radius = d.context_radius;
  context_reason = redact d.context_reason;
  capability_class = d.capability_class;
  order_constraints = map redact d.order_constraints;
  stop_conditions = map redact d.stop_conditions;
  warnings = map redact d.warnings;
}

unfoldable pub sanitize_context_plan : (String → String) → ContextPlan → ContextPlan
sanitize_context_plan redact p = record {
  radius = p.radius;
  reason = redact p.reason;
  candidate_areas = map redact p.candidate_areas;
  reusable_artifacts = map redact p.reusable_artifacts;
  context_pack_id = map_text redact p.context_pack_id;
  impact_report_id = map_text redact p.impact_report_id;
  index_digest = map_text redact p.index_digest;
}
