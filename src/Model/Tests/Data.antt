-- ===== src/Model/Tests/Data.antt =====
-- A work order, a runtime and a registry for the tests.
use Prim.Native.String.{String, len}
use uads.Common.{true, false, [], ◌∷◌, none, some, arith}
use uads.Common.Int.{ℤ, pos, ◌-ℤ◌, -ℤ_parts}
use uads.Common.Sort.{IsOrder}
use uads.Kernel.Types.{
  WorkOrder, RiskLevel, CapabilityClass, planned, local, c2, balanced, strong, medium,
}
use uads.Model.Types.{
  ModelProfile, ModelProfileRegistry, RuntimeCapabilitySnapshot, ModelRoutingInput, enabled,
  advanced, deep, low, high, user_config, known, CapabilityValue, proven,
}
use uads.Model.Router.Plan.{RoutingEnv}

abbrev pub order : WorkOrder
order = record {
  work_order_id = "wo_1";
  project_id = "prj_1";
  title = "Fix the parser";
  objective = "Fix the parser";
  status = planned;
  scope_class = local;
  included_scope = [];
  out_of_scope = [];
  recommendations = [];
  risk_level = medium;
  risk_reasons = "auth, public contract, or infrastructure signal" ∷ [];
  domains = "api" ∷ [];
  affected_areas = "src" ∷ [];
  specialists = [];
  assurance_reviewers = [];
  quality_gates = "static" ∷ [];
  context_radius = c2;
  token_budget = record { soft_limit = 24000; hard_limit = 48000; capability_class = balanced };
  dependencies = [];
  acceptance_criteria = [];
  required_evidence = [];
  stop_conditions = [];
  routing_decision_id = "d";
  safe_autonomous = [];
  requires_approval = [];
  next_action = "";
}

abbrev pub critical_order : WorkOrder
critical_order = record order { risk_level = RiskLevel.critical }

abbrev pub runtime : RuntimeCapabilitySnapshot
runtime = record {
  schema_version = "0.8.0";
  runtime_id = "generic-runtime";
  adapter_id = "host-managed";
  adapter_version = "0.8.0";
  runtime_version = none;
  capabilities = record {
    model_selection = known true;
    tool_calling = known true;
    structured_output = CapabilityValue.unknown;
    prompt_cache = CapabilityValue.unknown;
    explicit_cache = CapabilityValue.unknown;
    persistent_context = CapabilityValue.unknown;
    subagents = known true;
    parallel_agents = known false;
    usage_telemetry = CapabilityValue.unknown;
    vision_input = CapabilityValue.unknown;
  };
  confidence = proven;
  identity_digest = "runtime-digest";
}

abbrev pub middle : ModelProfile
middle = record {
  profile_id = "b-middle";
  provider_id = "prov";
  model_id = "m";
  status = enabled;
  capability_class = strong;
  reasoning_class = advanced;
  context_window_tokens = some 200000;
  max_output_tokens = some 8192;
  relative_cost_class = low;
  relative_latency_class = low;
  supports = record {
    tool_calling = true;
    structured_output = true;
    vision = false;
    prompt_cache = true;
    explicit_cache = false;
    persistent_context = false;
    usage_telemetry = false;
  };
  max_concurrency = none;
  notes = none;
  source = user_config;
  adapter_id = none;
  adapter_version = none;
  profile_digest = "d1";
}

abbrev pub top : ModelProfile
top = record middle {
  profile_id = "a-top";
  capability_class = CapabilityClass.critical;
  reasoning_class = deep;
  relative_cost_class = high;
}

abbrev pub registry : ModelProfileRegistry
registry = record { schema_version = "0.8.0"; profiles = top ∷ middle ∷ []; registry_digest = "r" }

abbrev pub input : ModelRoutingInput
input = record {
  work_order = order;
  project_id = none;
  registry = registry;
  runtime = runtime;
  context_pack = none;
  change_digest = none;
  failure_signals = none;
  previous_plan = none;
  allow_experimental = false;
  preferred_capability_class = none;
  blocked_provider_ids = [];
  estimated_input_tokens = some 9000;
  required_output_tokens = none;
}

abbrev pub critical_input : ModelRoutingInput
critical_input = record input { work_order = critical_order }

-- A stand-in for `localeCompare`: shorter ids first.
abbrev pub by_length : String → String → ℤ
by_length a b = pos (len a) -ℤ pos (len b)

pub by_length-IsOrder : IsOrder by_length
by_length-IsOrder = record {
  total = λ a b.
      ground (arith, -ℤ_parts (pos (len a)) (pos (len b)), -ℤ_parts (pos (len b)) (pos (len a)));
  trans = λ a b c p q. ground (
    arith,
    -ℤ_parts (pos (len a)) (pos (len b)),
    -ℤ_parts (pos (len b)) (pos (len c)),
    -ℤ_parts (pos (len a)) (pos (len c)),
  );
}

abbrev pub env : RoutingEnv
env = record {
  sha256_hex = λ s. "0123456789abcdef0123456789abcdef";
  routing_json = λ o. o.work_order_id;
  locale_compare = by_length;
}
