-- ===== src/Execution/Sanitize.antt =====
-- `sanitizeOperationalValue` of src/lib/safe-persist.ts at each record that is persisted: the texts
-- within it are redacted, field by field; what is no text stays. The literals of the closed unions
-- are texts in the source too, and none of them holds a secret.
use Prim.Native.String.{String}
use uads.Common.Nullable.{map_text}
use uads.Common.{List, Option, none, some, map}
use uads.Kernel.Execution.{
  ChangedFile, ContextExpansion, ExecutionBaseline, ExecutionPacket, ExecutionRun,
}
use uads.Gates.Records.{EvidenceRecord, GateStateSnapshot, ReviewFinding, ReviewRecord}
use uads.Execution.Store.{ReviewPacket}

abbrev redact_lists : (String → String) → Option (List String) → Option (List String)
redact_lists redact none = none
redact_lists redact (some xs) = some (map redact xs)

abbrev pub sanitize_pair : (String → String) → String × String → String × String
sanitize_pair redact (a, b) = (redact a, redact b)

abbrev sanitize_entry : (String → String) → String × List String → String × List String
sanitize_entry redact (a, bs) = (a, map redact bs)

abbrev sanitize_baseline : (String → String) → ExecutionBaseline → ExecutionBaseline
sanitize_baseline redact b = record {
  git_head = map_text redact b.git_head;
  dirty = b.dirty;
  captured_at = redact b.captured_at;
}

abbrev sanitize_file : (String → String) → ChangedFile → ChangedFile
sanitize_file redact f = record {
  path = redact f.path;
  classification = f.classification;
  reason = redact f.reason;
}

abbrev sanitize_expansion : (String → String) → ContextExpansion → ContextExpansion
sanitize_expansion redact e = record {
  from = e.from;
  to = e.to;
  reason = redact e.reason;
  at_time = redact e.at_time;
}

abbrev sanitize_finding : (String → String) → ReviewFinding → ReviewFinding
sanitize_finding redact f = record {
  severity = f.severity;
  category = redact f.category;
  message = redact f.message;
}

abbrev sanitize_gate_state : (String → String) → GateStateSnapshot → GateStateSnapshot
sanitize_gate_state redact s = record {
  gate_id = redact s.gate_id;
  status = s.status;
  evidence_id = map_text redact s.evidence_id;
}

unfoldable pub sanitize_run : (String → String) → ExecutionRun → ExecutionRun
sanitize_run redact r = record {
  execution_run_id = redact r.execution_run_id;
  project_id = redact r.project_id;
  work_order_id = redact r.work_order_id;
  routing_decision_id = redact r.routing_decision_id;
  created_at = redact r.created_at;
  updated_at = redact r.updated_at;
  attempt = r.attempt;
  phase = r.phase;
  status = r.status;
  baseline = sanitize_baseline redact r.baseline;
  context_radius = r.context_radius;
  context_candidates = map redact r.context_candidates;
  implementer_role = redact r.implementer_role;
  implementer_session_id = map_text redact r.implementer_session_id;
  required_reviewers = map redact r.required_reviewers;
  selected_gates = map redact r.selected_gates;
  current_change_digest = map_text redact r.current_change_digest;
  reviewed_change_digest = map_text redact r.reviewed_change_digest;
  changed_files = map redact r.changed_files;
  scope_violations = map (sanitize_file redact) r.scope_violations;
  evidence_refs = map redact r.evidence_refs;
  review_refs = map redact r.review_refs;
  blockers = map redact r.blockers;
  next_action = redact r.next_action;
  expansion_history = map (sanitize_expansion redact) r.expansion_history;
  context_pack_id = map_text redact r.context_pack_id;
  impact_report_id = map_text redact r.impact_report_id;
  index_digest = map_text redact r.index_digest;
  model_plan_id = map_text redact r.model_plan_id;
  selected_profile_id = map_text redact r.selected_profile_id;
  selected_provider_id = map_text redact r.selected_provider_id;
  selected_model_id = map_text redact r.selected_model_id;
  selection_mode = r.selection_mode;
  model_execution_strategy = r.model_execution_strategy;
}

unfoldable pub sanitize_packet : (String → String) → ExecutionPacket → ExecutionPacket
sanitize_packet redact p = record {
  execution_run_id = redact p.execution_run_id;
  work_order_id = redact p.work_order_id;
  objective = redact p.objective;
  included_scope = map redact p.included_scope;
  out_of_scope = map redact p.out_of_scope;
  risk_level = p.risk_level;
  domains = map redact p.domains;
  context_radius = p.context_radius;
  context_candidates = map redact p.context_candidates;
  specialists = map redact p.specialists;
  assurance_reviewers = map redact p.assurance_reviewers;
  selected_gates = map redact p.selected_gates;
  acceptance_criteria = map redact p.acceptance_criteria;
  required_evidence = map redact p.required_evidence;
  safe_autonomous_actions = map redact p.safe_autonomous_actions;
  approval_gated_actions = map redact p.approval_gated_actions;
  stop_conditions = map redact p.stop_conditions;
  baseline_git_head = map_text redact p.baseline_git_head;
  next_action = redact p.next_action;
  context_pack_id = map_text redact p.context_pack_id;
  impact_report_id = map_text redact p.impact_report_id;
  index_digest = map_text redact p.index_digest;
  model_plan_id = map_text redact p.model_plan_id;
  selected_profile_id = map_text redact p.selected_profile_id;
  selected_provider_id = map_text redact p.selected_provider_id;
  selected_model_id = map_text redact p.selected_model_id;
  selection_mode = p.selection_mode;
  model_execution_strategy = p.model_execution_strategy;
}

unfoldable pub sanitize_evidence : (String → String) → EvidenceRecord → EvidenceRecord
sanitize_evidence redact r = record {
  evidence_id = redact r.evidence_id;
  project_id = redact r.project_id;
  work_order_id = redact r.work_order_id;
  execution_run_id = redact r.execution_run_id;
  change_digest = redact r.change_digest;
  gate_id = redact r.gate_id;
  source_role = redact r.source_role;
  kind = r.kind;
  created_at = redact r.created_at;
  status = r.status;
  summary = redact r.summary;
  command = map_text redact r.command;
  exit_code = r.exit_code;
  output_ref = map_text redact r.output_ref;
  output_digest = map_text redact r.output_digest;
  file_ref = map_text redact r.file_ref;
  file_digest = map_text redact r.file_digest;
  source = r.source;
  source_cache_record_id = map_text redact r.source_cache_record_id;
  source_evidence_id = map_text redact r.source_evidence_id;
  cache_decision_id = map_text redact r.cache_decision_id;
  reuse_proof_digest = map_text redact r.reuse_proof_digest;
  gate_reuse_contract_identity = map_text redact r.gate_reuse_contract_identity;
}

unfoldable pub sanitize_review : (String → String) → ReviewRecord → ReviewRecord
sanitize_review redact r = record {
  review_id = redact r.review_id;
  project_id = redact r.project_id;
  work_order_id = redact r.work_order_id;
  execution_run_id = redact r.execution_run_id;
  change_digest = redact r.change_digest;
  reviewer_role = redact r.reviewer_role;
  review_session_id = redact r.review_session_id;
  implementer_role = redact r.implementer_role;
  implementer_session_id = redact r.implementer_session_id;
  verdict = r.verdict;
  summary = redact r.summary;
  findings = map (sanitize_finding redact) r.findings;
  reason_codes = redact_lists redact r.reason_codes;
  evidence_refs = map redact r.evidence_refs;
  created_at = redact r.created_at;
}

unfoldable pub sanitize_review_packet : (String → String) → ReviewPacket → ReviewPacket
sanitize_review_packet redact p = record {
  execution_run_id = redact p.execution_run_id;
  work_order_id = redact p.work_order_id;
  objective = redact p.objective;
  acceptance_criteria = map redact p.acceptance_criteria;
  included_scope = map redact p.included_scope;
  out_of_scope = map redact p.out_of_scope;
  changed_files = map redact p.changed_files;
  change_digest = redact p.change_digest;
  gate_states = map (sanitize_gate_state redact) p.gate_states;
  evidence_refs = map redact p.evidence_refs;
  required_reviewers = map redact p.required_reviewers;
  role_to_gate_mapping = map (sanitize_entry redact) p.role_to_gate_mapping;
  required_evidence_obligations = map redact p.required_evidence_obligations;
  unresolved_blockers = map redact p.unresolved_blockers;
  next_action = redact p.next_action;
}
