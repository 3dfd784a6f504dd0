-- ===== src/Execution/Samples.antt =====
-- The files of a run under review with its evidence, its approval and nothing open.
use Prim.Native.String.{String}
use uads.Common.{
  true, false, [], ◌∷◌, none, some, ◌==◌, string_eq, if◌then◌else◌, ◌≡◌, refl, Bool-cases, inl, inr,
}
use uads.Common.Int.{pos}
use uads.Kernel.Types.{
  CapabilityClass, Checkpoint, CheckpointStatus, ContextPlan, Phase, RiskLevel, RoutingDecision,
  ScopeClass, c2,
}
use uads.Kernel.Execution.{ExecutionRun, ScopeClassification}
use uads.Gates.Registry.{EvidenceKind}
use uads.Gates.Records.{ReviewVerdict, medium}
use uads.Cost.Types.{missing}
use uads.Assurance.Samples.{approval, order, passed, run, selection}
use uads.Execution.Store.{Store, World, put, returned}
use uads.Execution.Run.{build_packet}
use uads.Execution.Contract.{EvidenceInput}
use uads.Execution.Reviewer.{ReviewInput}
use uads.Execution.Valid.{IsValid}
use uads.Execution.Steps.{IsFiled}

abbrev pub same_text : String → String
same_text text = text

-- Stand-ins: nothing is redacted, every schema accepts, the work tree has the digest `live`.
abbrev pub world_at : String → World
world_at live = record {
  now = "t9";
  project_id = "p";
  redact = same_text;
  digest = same_text;
  locale_compare = λ a b. pos 0;
  name_compare = λ a b. pos 0;
  plan_digest = λ plan. "sd";
  accepts_run = λ r. true;
  accepts_packet = λ r. true;
  accepts_evidence = λ r. true;
  accepts_review = λ r. true;
  accepts_review_packet = λ r. true;
  accepts_plan = λ a b c. true;
  change_set = λ a b. record {
    digest = live;
    files =
        record {
          path = "src/parser.ts";
          classification = ScopeClassification.in_scope;
          reason = "affected area";
        }
        ∷ [];
    violations = [];
  };
  valid_reuse = λ a b c d. false;
  bound_selection = λ a b c. some selection;
  cache_hits = λ a b. [];
  cache_misses = λ a b. 0;
  candidates_at = λ a b. some [];
  intel_at = λ a b c. none;
  copy_output = λ r id path. returned (path, "d");
  hash_file = λ path. returned (path, "d");
  costs = record {
    now = "t9";
    digest = same_text;
    redact = same_text;
    accepts_ledger = λ l. true;
    accepts_decision = λ d. true;
  };
}

abbrev pub world : World
world = world_at "now"

abbrev pub routing : RoutingDecision
routing = record {
  routing_decision_id = "d";
  project_id = "p";
  created_at = "t0";
  scope_class = ScopeClass.local;
  scope_reasons = [];
  risk_level = RiskLevel.medium;
  risk_reasons = [];
  domains = [];
  specialists = [];
  assurance_specialists = [];
  gates = [];
  context_radius = c2;
  context_reason = "";
  capability_class = CapabilityClass.balanced;
  order_constraints = [];
  stop_conditions = [];
  warnings = [];
}

abbrev pub checkpoint : Checkpoint
checkpoint = record {
  checkpoint_id = "c";
  project_id = "p";
  work_order_id = some "w";
  routing_decision_id = some "d";
  created_at = "t0";
  updated_at = "t0";
  phase = Phase.review;
  status = CheckpointStatus.in_progress;
  completed_steps = [];
  next_action = "";
  blockers = [];
  evidence_refs = [];
  repository_map_digest = none;
  context_plan_ref = none;
  resume_cursor = "";
}

abbrev pub plan : ContextPlan
plan = record {
  radius = c2;
  reason = "";
  candidate_areas = [];
  reusable_artifacts = [];
  context_pack_id = none;
  impact_report_id = none;
  index_digest = none;
}

abbrev pub store : Store
store = record {
  checkpoint = some checkpoint;
  work_orders = put "w" order (λ id. none);
  routing_decisions = put "d" routing (λ id. none);
  context_plan = some plan;
  current_execution = some "r";
  runs = put "r" run (λ id. none);
  packets = put "r" (build_packet run order) (λ id. none);
  review_packets = λ id. none;
  evidence = λ id. if id == "r" then passed ∷ [] else [];
  reviews = λ id. if id == "r" then approval ∷ [] else [];
  costs = record { ledger = missing; decisions = [] };
}

abbrev pub review_input : ReviewInput
review_input = record {
  role = "independent-reviewer";
  session = "s2";
  implementer_session = none;
  verdict = ReviewVerdict.approved;
  summary = "read";
  findings = returned [];
}

abbrev pub evidence_input : EvidenceInput
evidence_input = record {
  gate_id = "static";
  kind = EvidenceKind.command;
  role = "implementer";
  command = some "npm run lint";
  exit_code = some (pos 0);
  output_path = some "out.txt";
  file = none;
  summary = "lint";
  status = none;
}

-- The run is well-formed: it is under review of a digest and nothing is out of scope.
run-IsValid : IsValid run
run-IsValid = ((λ e. cc e), (λ e. cc e), (λ e. cc e), (λ e. absurd (e refl)), (λ e d. cc d))

found_run :
    (id : String) (r : ExecutionRun)
    → store.runs id ≡ some r
    → IsValid r × (r.execution_run_id ≡ id)
found_run id r e = elim (Bool-cases ("r" == id)) [
  | inl same ↦
      let k : some run ≡ some r = rw same at e in
      let whole : run ≡ r = cc k in rw (← whole) (run-IsValid, (string_eq.beq_iff "r" id).0 same)
  | inr other ↦ let k : none ≡ some r = rw other at e in cc k
]

pub store-IsFiled : IsFiled same_text store.runs
store-IsFiled id r e = let (valid, named) = found_run id r e in (valid, named, refl)

-- The same files before the review.
abbrev pub unreviewed : Store
unreviewed = record store { reviews = λ id. [] }

abbrev pub correction_input : ReviewInput
correction_input = record {
  role = "independent-reviewer";
  session = "s3";
  implementer_session = none;
  verdict = ReviewVerdict.correction_needed;
  summary = "read again";
  findings =
      returned (record { severity = medium; category = "logic"; message = "off by one" } ∷ []);
}
