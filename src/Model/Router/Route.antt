-- ===== src/Model/Router/Route.antt =====
-- `routeModel` of src/kernel/model-router.ts.
use Prim.Native.String.{String, slice}
use uads.Common.{
  ℕ, Bool, true, false, not, ◌&&◌, ◌||◌, List, [], ◌∷◌, ◌++◌, Option, none, some, map, ltb, leb,
  if◌then◌else◌, ◌&◌, ◌==◌, string_eq, contains, dedupe, filter, head?, rest_of, includes,
}
use uads.Common.Result.{Result, ok, throw}
use uads.Common.Sort.{sort_by}
use uads.Kernel.Types.{RiskLevel, CapabilityClass, balanced, capability_text, risk_eq}
use uads.Model.Types.{
  ModelProfile, ModelRejection, ModelRoutingStatus, ModelSelectionMode, router, ModelExecutionPlan,
  ModelRoutingInput,
}
use uads.Model.Requirements.Floors.{capability_rank}
use uads.Model.Requirements.Derive.{no_signals, or_default, derive_model_requirements}
use uads.Model.Router.Compare.{compare_candidate}
use uads.Model.Router.Plan.{
  RoutingEnv, routing_schema_version, candidate_summary, selected_field, role_selections,
  effective_cache_hints, execution_strategy, rejections_of, prior_tier, current_tier,
  current_requirements,
}

abbrev is_empty {ℓ} : {A : Type ℓ} → List A → Bool
is_empty [] = true
is_empty (x ∷ xs) = false

abbrev prior_above : Option CapabilityClass → CapabilityClass → Bool
prior_above none required = false
prior_above (some prior) required = ltb (capability_rank required) (capability_rank prior)

unfoldable pub escalation_reasons : ModelRoutingInput → List String
escalation_reasons input =
    let requirements = derive_model_requirements input in
    dedupe (
      filter (λ reason. includes reason "ESCALATION") requirements.reasons
      ++ ((or_default input.failure_signals no_signals).explicit_reasons
          ++ (if prior_above (prior_tier input) requirements.required_capability_class
              then "MONOTONIC_PRIOR_FLOOR" ∷ []
              else [])))

-- `newPrefixedId` of src/kernel/ids.ts: the first 16 hexadecimal digits of the hash.
unfoldable pub new_prefixed_id : (String → String) → String → String → String
new_prefixed_id sha256_hex prefix material = prefix & "_" & slice (sha256_hex material) 0 16

module _ (env : RoutingEnv) (input : ModelRoutingInput) where
  unfoldable pub candidates : List ModelProfile
  candidates = sort_by (λ a b. env.locale_compare a.profile_id b.profile_id) input.registry.profiles

  unfoldable pub rejections : List ModelRejection
  rejections = rejections_of input (current_requirements input) candidates

  -- The candidates with no rejected id, best first.
  unfoldable pub eligible : List ModelProfile
  eligible =
      let requirements = current_requirements input in
      sort_by
        (λ a b.
          compare_candidate env.locale_compare a b requirements.required_capability_class
            requirements.minimum_reasoning_class requirements.estimated_input_tokens)
        (filter (λ p. not (contains (map (λ r. r.profile_id) rejections) p.profile_id)) candidates)

  -- `noConcreteProfileCompatibility`: with no profile at all the host chooses the model, for tiers
  -- up to `balanced` and work that is not CRITICAL.
  unfoldable pub is_host_managed : Bool
  is_host_managed =
      is_empty eligible
      && is_empty input.registry.profiles
      && leb (capability_rank (current_tier input)) (capability_rank balanced)
      && not (input.work_order.risk_level == RiskLevel.critical)

  unfoldable pub selected_profile : Option ModelProfile
  selected_profile = if is_host_managed then none else head? eligible

  abbrev status_of : Option ModelProfile → Bool → ModelRoutingStatus
  status_of (some p) managed = ModelRoutingStatus.selected
  status_of none true = ModelRoutingStatus.selected
  status_of none false = ModelRoutingStatus.blocked

  abbrev blocked_reason_of : ModelRoutingStatus → Option String
  blocked_reason_of ModelRoutingStatus.blocked = some "NO_ELIGIBLE_MODEL"
  blocked_reason_of ModelRoutingStatus.selected = none

  abbrev selection_codes : Option ModelProfile → Bool → List String
  selection_codes (some p) managed =
      "MINIMUM_CAPABILITY_FLOOR" ∷ "REASONING_ADEQUATE" ∷ "CONTEXT_HEADROOM"
      ∷ "RELATIVE_COST_PREFERENCE" ∷ "RELATIVE_LATENCY_PREFERENCE"
      ∷ "LEXICOGRAPHIC_PROFILE_ID_TIE_BREAK" ∷ []
  selection_codes none true =
      "HOST_MANAGED_COMPATIBILITY" ∷ "NO_CONCRETE_PROFILE" ∷ "QUALITY_FLOOR_RETAINED" ∷ []
  selection_codes none false = "NO_ELIGIBLE_MODEL" ∷ "FAIL_CLOSED" ∷ []

  abbrev window_of : Option ModelProfile → Option ℕ
  window_of none = none
  window_of (some p) = p.context_window_tokens

  abbrev fallbacks_of : Option ModelProfile → List String
  fallbacks_of none = []
  fallbacks_of (some p) = map (λ q. q.profile_id) (rest_of eligible)

  policy_digest : String
  policy_digest = env.sha256_hex (
      "uads-model-routing-policy:0.8.0:capability-before-cost;quality-floor-before-scoring;"
      & "no-silent-downgrade;deterministic-tiebreak")

  plan_material : String
  plan_material =
      let order = input.work_order in
      order.project_id
      & ":"
      & order.work_order_id
      & ":"
      & env.sha256_hex (env.routing_json order)
      & ":"
      & input.runtime.identity_digest
      & ":"
      & input.registry.registry_digest
      & ":"
      & policy_digest
      & ":"
      & capability_text (current_tier input)
      & ":"
      & or_default input.change_digest "none"

  unfoldable pub build_plan : ModelExecutionPlan
  unfolding policy_digest plan_material
  build_plan =
      let order = input.work_order in
      let requirements = derive_model_requirements input in
      let selected = selected_profile in
      let mode = if is_host_managed then ModelSelectionMode.host_managed else router in
      let status = status_of selected is_host_managed in
      record {
        plan_id = new_prefixed_id env.sha256_hex "mrp" plan_material;
        project_id = or_default input.project_id order.project_id;
        work_order_id = order.work_order_id;
        work_order_digest = env.sha256_hex (env.routing_json order);
        change_digest = input.change_digest;
        risk = order.risk_level;
        scope_class = order.scope_class;
        complexity = requirements.complexity;
        uncertainty = requirements.uncertainty;
        required_capability_class = current_tier input;
        required_capabilities = requirements.required_capabilities;
        runtime_identity_digest = input.runtime.identity_digest;
        registry_digest = input.registry.registry_digest;
        policy_digest = policy_digest;
        candidates = map candidate_summary candidates;
        eligible_candidates = map (λ p. p.profile_id) eligible;
        rejections = rejections;
        selected_profile_id = selected_field selected (λ p. p.profile_id);
        selected_provider_id = selected_field selected (λ p. p.provider_id);
        selected_model_id = selected_field selected (λ p. p.model_id);
        role_selections = role_selections selected status mode;
        selection_reason_codes = selection_codes selected is_host_managed;
        fallback_profile_ids = fallbacks_of selected;
        escalation = record {
          floor = requirements.required_capability_class;
          current_tier = current_tier input;
          reason_codes = escalation_reasons input;
        };
        cache_hints = effective_cache_hints selected input.runtime input.context_pack;
        execution = execution_strategy selected input.runtime;
        budget = record {
          hard_limit = order.token_budget.hard_limit;
          soft_limit = order.token_budget.soft_limit;
          estimated_input_tokens = requirements.estimated_input_tokens;
          required_output_tokens = requirements.required_output_tokens;
          selected_context_window_tokens = window_of selected;
        };
        selection_mode = mode;
        status = status;
        blocked_reason = blocked_reason_of status;
      }

  abbrev is_cross_project : Bool
  is_cross_project =
      not (input.work_order.project_id == or_default input.project_id input.work_order.project_id)

  abbrev is_other_version : Bool
  is_other_version =
      not (input.registry.schema_version == routing_schema_version)
      || not (input.runtime.schema_version == routing_schema_version)

  unfoldable pub route_model : Result ModelExecutionPlan
  route_model =
      if is_cross_project
      then throw "cross-project model routing rejected"
      else if is_other_version
      then throw "model routing schema/version mismatch"
      else ok build_plan
