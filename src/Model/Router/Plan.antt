-- ===== src/Model/Router/Plan.antt =====
-- The parts of a plan in src/kernel/model-router.ts. The hash of Node's crypto module,
-- `JSON.stringify` of a work order's routing fields and `localeCompare` are parameters.
use Prim.Native.String.{String}
use uads.Common.{
  Bool, true, false, ◌&&◌, List, [], ◌∷◌, Option, none, some, map, ltb, if◌then◌else◌, ◌==◌,
  string_eq,
}
use uads.Common.Int.{ℤ}
use uads.Kernel.Types.{CapabilityClass, WorkOrder, risk_eq}
use uads.Model.Types.{
  ModelProfile, ModelCandidateSummary, ModelRejection, ModelRole, implementation, review, testing,
  assurance, ModelRoleSelection, RoleStatus, RoleDispatch, role_cycling, ModelRoutingStatus,
  ModelSelectionMode, router, CacheHints, ContextPack, ModelExecutionStrategy,
  ModelRoutingRequirements, ModelRoutingInput, RuntimeCapabilitySnapshot, prompt_cache,
  explicit_cache, persistent_context, parallel_agents, usage_telemetry, ModelCapability,
}
use uads.Model.Requirements.Floors.{max_capability, minimum_reasoning_for}
use uads.Model.Requirements.Derive.{derive_model_requirements}
use uads.Model.Runtime.{effective_capability}
use uads.Model.Router.Reject.{profile_rejection}

pub record RoutingEnv : Type 0 where
  pub sha256_hex : String → String
  pub routing_json : WorkOrder → String
  pub locale_compare : String → String → ℤ

abbrev pub routing_schema_version : String
routing_schema_version = "0.8.0"

unfoldable pub candidate_summary : ModelProfile → ModelCandidateSummary
candidate_summary p = record {
  profile_id = p.profile_id;
  provider_id = p.provider_id;
  model_id = p.model_id;
  capability_class = p.capability_class;
  reasoning_class = p.reasoning_class;
  relative_cost_class = p.relative_cost_class;
  relative_latency_class = p.relative_latency_class;
}

-- `selected?.field ?? null`
abbrev pub selected_field {ℓ} : {A : Type ℓ} → Option ModelProfile → (ModelProfile → A) → Option A
selected_field none f = none
selected_field (some p) f = some (f p)

abbrev roles : List ModelRole
roles = implementation ∷ review ∷ testing ∷ assurance ∷ []

abbrev role_status : ModelRoutingStatus → ModelSelectionMode → RoleStatus
role_status ModelRoutingStatus.blocked mode = RoleStatus.blocked
role_status ModelRoutingStatus.selected ModelSelectionMode.host_managed = RoleStatus.host_managed
role_status ModelRoutingStatus.selected router = RoleStatus.selected

abbrev role_codes : RoleStatus → List String
role_codes RoleStatus.blocked = "NO_ELIGIBLE_MODEL" ∷ []
role_codes RoleStatus.host_managed = "HOST_MANAGED_COMPATIBILITY" ∷ []
role_codes RoleStatus.selected = "ROLE_USES_MINIMUM_SUFFICIENT_PROFILE" ∷ []

unfoldable pub role_selections :
    Option ModelProfile → ModelRoutingStatus → ModelSelectionMode → List ModelRoleSelection
role_selections selected status mode =
    map
      (λ role. record {
        role = role;
        profile_id = selected_field selected (λ p. p.profile_id);
        provider_id = selected_field selected (λ p. p.provider_id);
        model_id = selected_field selected (λ p. p.model_id);
        status = role_status status mode;
        reason_codes = role_codes (role_status status mode);
      })
      roles

abbrev usable : Option ModelProfile → RuntimeCapabilitySnapshot → ModelCapability → Bool
usable none runtime capability = false
usable (some p) runtime capability = effective_capability p runtime capability

abbrev pack_digest : Option ContextPack → (ContextPack → Option String) → Option String
pack_digest none f = none
pack_digest (some pack) f = f pack

unfoldable pub effective_cache_hints :
    Option ModelProfile → RuntimeCapabilitySnapshot → Option ContextPack → CacheHints
effective_cache_hints selected runtime pack = record {
  static_layer_digest = pack_digest pack (λ c. c.static_layer_digest);
  semi_stable_layer_digest = pack_digest pack (λ c. c.semi_stable_layer_digest);
  dynamic_layer_digest = pack_digest pack (λ c. c.dynamic_layer_digest);
  prompt_cache_usable = usable selected runtime prompt_cache;
  explicit_cache_usable = usable selected runtime explicit_cache;
  persistent_context_usable = usable selected runtime persistent_context;
}

-- `maxConcurrency == null || maxConcurrency > 1`
abbrev allows_parallel : Option ModelProfile → Bool
allows_parallel none = true
allows_parallel (some p) = elim p.max_concurrency [ none ↦ true | some n ↦ ltb 1 n ]

unfoldable pub execution_strategy :
    Option ModelProfile → RuntimeCapabilitySnapshot → ModelExecutionStrategy
execution_strategy selected runtime = record {
  parallel = usable selected runtime parallel_agents && allows_parallel selected;
  role_dispatch =
      if usable selected runtime ModelCapability.subagents
      then RoleDispatch.subagents
      else role_cycling;
  usage_telemetry_available = if usable selected runtime usage_telemetry then some true else none;
}

-- `candidates.map(...).filter(Boolean)`
unfoldable pub rejections_of :
    ModelRoutingInput → ModelRoutingRequirements → List ModelProfile → List ModelRejection
rejections_of input requirements [] = []
rejections_of input requirements (p ∷ ps) =
    let rest = rejections_of input requirements ps in
    elim (profile_rejection p input requirements) [ none ↦ rest | some r ↦ r ∷ rest ]

-- The tier of the previous plan, where that plan was for the same work order.
unfoldable pub prior_tier : ModelRoutingInput → Option CapabilityClass
prior_tier input = elim input.previous_plan [
  | none ↦ none
  | some plan ↦
      if plan.work_order_id == input.work_order.work_order_id
      then some plan.escalation.current_tier
      else none
]

abbrev raised_tier : Option CapabilityClass → CapabilityClass → CapabilityClass
raised_tier none required = required
raised_tier (some prior) required = max_capability required prior

unfoldable pub current_tier : ModelRoutingInput → CapabilityClass
current_tier input =
    raised_tier (prior_tier input) (derive_model_requirements input).required_capability_class

-- The requirements with the class and the reasoning of the current tier.
unfoldable pub current_requirements : ModelRoutingInput → ModelRoutingRequirements
current_requirements input =
    let requirements = derive_model_requirements input in
    let tier = current_tier input in
    record requirements {
      required_capability_class = tier;
      minimum_reasoning_class = minimum_reasoning_for tier;
    }
