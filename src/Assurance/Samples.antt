-- ===== src/Assurance/Samples.antt =====
-- A run with one gate and one required reviewer, its evidence, reviews and specialist selection.
use Prim.Native.String.{String}
use uads.Common.{true, false, List, [], ◌∷◌, none, some}
use uads.Common.Int.{pos}
use uads.Kernel.Types.{
  CapabilityClass, RiskLevel, ScopeClass, WorkOrder, WorkOrderStatus, c2, implementer_role,
}
use uads.Kernel.Execution.{ExecutionPhase, ExecutionRun, ExecutionStatus}
use uads.Gates.Registry.{EvidenceKind}
use uads.Gates.Records.{
  EvidenceRecord, EvidenceRuntimeStatus, GateRuntimeStatus, ReviewFinding, ReviewRecord,
  ReviewVerdict, medium,
}
use uads.Assurance.Types.{
  AssuranceMode, AssurancePolicyInput, ObligationKind, PolicyEnv, SelectionPlan,
}

abbrev pub order : WorkOrder
order = record {
  work_order_id = "w";
  project_id = "p";
  title = "Fix the parser";
  objective = "Fix the parser";
  status = WorkOrderStatus.active;
  scope_class = ScopeClass.local;
  included_scope = [];
  out_of_scope = [];
  recommendations = [];
  risk_level = RiskLevel.medium;
  risk_reasons = [];
  domains = [];
  affected_areas = "src" ∷ [];
  specialists = implementer_role ∷ [];
  assurance_reviewers = "independent-reviewer" ∷ [];
  quality_gates = "static" ∷ [];
  context_radius = c2;
  token_budget = record {
    soft_limit = 24000;
    hard_limit = 48000;
    capability_class = CapabilityClass.balanced;
  };
  dependencies = [];
  acceptance_criteria = "parses" ∷ [];
  required_evidence = [];
  stop_conditions = [];
  routing_decision_id = "d";
  safe_autonomous = [];
  requires_approval = [];
  next_action = "";
}

abbrev pub run : ExecutionRun
run = record {
  execution_run_id = "r";
  project_id = "p";
  work_order_id = "w";
  routing_decision_id = "d";
  created_at = "t0";
  updated_at = "t0";
  attempt = 1;
  phase = ExecutionPhase.review;
  status = ExecutionStatus.in_progress;
  baseline = record { git_head = none; dirty = false; captured_at = "t0" };
  context_radius = c2;
  context_candidates = [];
  implementer_role = implementer_role;
  implementer_session_id = some "s1";
  required_reviewers = "independent-reviewer" ∷ [];
  selected_gates = "static" ∷ [];
  current_change_digest = some "now";
  reviewed_change_digest = none;
  changed_files = "src/parser.ts" ∷ [];
  scope_violations = [];
  evidence_refs = [];
  review_refs = [];
  blockers = [];
  next_action = "";
  expansion_history = [];
  context_pack_id = none;
  impact_report_id = none;
  index_digest = none;
  model_plan_id = none;
  selected_profile_id = none;
  selected_provider_id = none;
  selected_model_id = none;
  selection_mode = none;
  model_execution_strategy = none;
}

abbrev pub passed : EvidenceRecord
passed = record {
  evidence_id = "e1";
  project_id = "p";
  work_order_id = "w";
  execution_run_id = "r";
  change_digest = "now";
  gate_id = "static";
  source_role = "implementer";
  kind = EvidenceKind.command;
  created_at = "t1";
  status = EvidenceRuntimeStatus.evidence_pass;
  summary = "lint";
  command = some "npm run lint";
  exit_code = some (pos 0);
  output_ref = some "out.txt";
  output_digest = some "d1";
  file_ref = none;
  file_digest = none;
  source = none;
  source_cache_record_id = none;
  source_evidence_id = none;
  cache_decision_id = none;
  reuse_proof_digest = none;
  gate_reuse_contract_identity = none;
}

abbrev pub review_of : String → String → ReviewVerdict → List ReviewFinding → ReviewRecord
review_of id session verdict findings = record {
  review_id = id;
  project_id = "p";
  work_order_id = "w";
  execution_run_id = "r";
  change_digest = "now";
  reviewer_role = "independent-reviewer";
  review_session_id = session;
  implementer_role = implementer_role;
  implementer_session_id = "s1";
  verdict = verdict;
  summary = "read";
  findings = findings;
  reason_codes = none;
  evidence_refs = "sidecar://execution-runs/r/evidence/e1.json" ∷ [];
  created_at = "t2";
}

abbrev pub approval : ReviewRecord
approval = review_of "v1" "s2" ReviewVerdict.approved []

abbrev pub correction : ReviewRecord
correction =
    review_of "v2" "s3" ReviewVerdict.correction_needed
      (record { severity = medium; category = "logic"; message = "off by one" } ∷ [])

abbrev pub selection : SelectionPlan
selection = record {
  selection_plan_id = "sp";
  project_id = "p";
  work_order_id = "w";
  selected =
      record {
        specialist_id = implementer_role;
        role = "implementer";
        required = true;
        reason_codes = [];
        covers_domains = [];
        covers_gates = "static" ∷ [];
      }
      ∷ [];
  assurance =
      record {
        specialist_id = "independent-reviewer";
        role = "reviewer";
        required = true;
        reason_codes = [];
        covers_domains = [];
        covers_gates = [];
      }
      ∷ [];
  unmet_coverage = [];
  required_obligations =
      record {
        obligation_id = "gate:static";
        kind = ObligationKind.gate;
        domain_id = none;
        gate_id = some "static";
        evidence_id = some "gate:static";
        affected_area_id = none;
        specialist_id = none;
      }
      ∷ record {
        obligation_id = "assurance:independent-reviewer";
        kind = ObligationKind.assurance;
        domain_id = none;
        gate_id = none;
        evidence_id = none;
        affected_area_id = none;
        specialist_id = some "independent-reviewer";
      }
      ∷ [];
  covered_obligations =
      record {
        obligation_id = "gate:static";
        gate_id = some "static";
        evidence_id = some "gate:static";
        specialist_id = implementer_role;
        reason_code = "COVERS_GATE";
        coverage_kind = ObligationKind.gate;
      }
      ∷ record {
        obligation_id = "assurance:independent-reviewer";
        gate_id = none;
        evidence_id = none;
        specialist_id = "independent-reviewer";
        reason_code = "ASSURANCE";
        coverage_kind = ObligationKind.assurance;
      }
      ∷ [];
  unmet_obligations = [];
  is_selected = true;
  blocked_reason_codes = [];
  selection_digest = "sd";
}

-- Stand-ins: every two texts in the order they are given, and one digest.
abbrev pub env : PolicyEnv
env = record { locale_compare = λ a b. pos 0; plan_digest = λ plan. "sd" }

abbrev pub input_of : List ReviewRecord → AssurancePolicyInput
input_of reviews = record {
  mode = AssuranceMode.finalize;
  project_id = "p";
  work_order = order;
  run = run;
  gate_states =
      record { gate_id = "static"; status = GateRuntimeStatus.pass; evidence_id = some "e1" } ∷ [];
  evidence = passed ∷ [];
  reviews = reviews;
  candidate = none;
  specialist_selection_plan = some selection;
}
