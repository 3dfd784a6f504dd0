-- ===== src/Model/Router/Selection.antt =====
-- The shapes of a plan: what `routeModel` of src/kernel/model-router.ts returns on each branch.
use uads.Common.{◌≤◌, ◌≡◌, ◌≢◌, ◌↔◌, true, List, [], ◌∷◌, some, arith, string_eq, ◌==◌, rest_of}
use uads.Common.Result.{ok}
use uads.Kernel.Types.{RiskLevel, risk_eq}
use uads.Model.Types.{ModelProfile, ModelExecutionPlan, ModelRoutingInput}
use uads.Model.Requirements.Floors.{capability_rank}
use uads.Model.Requirements.Derive.{or_default}
use uads.Model.Router.Plan.{RoutingEnv, routing_schema_version, current_tier}
use uads.Model.Router.Route.{eligible, is_host_managed, selected_profile, build_plan, route_model}

module _ (env : RoutingEnv) (input : ModelRoutingInput) where
  -- A plan that is returned is the one that is built; routing fails exactly for a foreign project
  -- or another schema version.
  pub route_model-eq-ok :
      {plan : ModelExecutionPlan} → route_model env input ≡ ok plan → plan ≡ build_plan env input
  unfolding route_model
  route_model-eq-ok h = ground arith

  -- Routing succeeds exactly when the project that is named, if any, is the work order's and the
  -- registry and the runtime both have the router's schema version.
  pub route_model-ok_iff : ((plan : ModelExecutionPlan) × (route_model env input ≡ ok plan)) ↔ (
      (or_default input.project_id input.work_order.project_id ≡ input.work_order.project_id)
      × (input.registry.schema_version ≡ routing_schema_version)
      × (input.runtime.schema_version ≡ routing_schema_version))
  unfolding route_model
  route_model-ok_iff = (
    λ (plan, h). ground (arith, names.0, names.1, names.2),
    λ h. (build_plan env input, ground (arith, names.0, names.1, names.2)),
  )
    where
      names :
          (((input.work_order.project_id == or_default input.project_id input.work_order.project_id)
              ≡ true)
            ↔ (input.work_order.project_id
                ≡ or_default input.project_id input.work_order.project_id))
          × (((input.registry.schema_version == routing_schema_version) ≡ true)
              ↔ (input.registry.schema_version ≡ routing_schema_version))
          × (((input.runtime.schema_version == routing_schema_version) ≡ true)
              ↔ (input.runtime.schema_version ≡ routing_schema_version))
      names = (string_eq.beq_iff _ _, string_eq.beq_iff _ _, string_eq.beq_iff _ _)

  -- The host manages the model only for an empty registry, a tier up to `balanced` and work that is
  -- not CRITICAL.
  pub is_host_managed_iff : (is_host_managed env input ≡ true) ↔ (
      (eligible env input ≡ [])
      × (input.registry.profiles ≡ [])
      × (capability_rank (current_tier input) ≤ 1)
      × (input.work_order.risk_level ≢ RiskLevel.critical))
  unfolding is_host_managed
  is_host_managed_iff = (λ h. ground arith, λ h. ground arith)

  -- A selected profile stands first among the eligible ones.
  pub selected_profile-some :
      {p : ModelProfile}
      → selected_profile env input ≡ some p
      → (rest : List ModelProfile) × (eligible env input ≡ p ∷ rest)
  unfolding selected_profile
  selected_profile-some h = (rest_of (eligible env input), ground arith)
