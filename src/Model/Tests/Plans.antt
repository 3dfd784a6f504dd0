-- ===== src/Model/Tests/Plans.antt =====
-- Plans for the small registry, and the theorems on plans at them.
use uads.Common.{
  ◌≤◌, max, some, none, ◌≡◌, ◌≢◌, ◌↔◌, refl, [], ◌∷◌, Memᴰ, All, includes_one, includes,
  to_lower_case, join_words, any, contains, dedupe_from, filter,
}
use uads.Common.Int.{◌-ℤ◌}
use uads.Common.Result.{ok}
use uads.Common.Sort.{sort_from, insert_by, Before}
use uads.Kernel.Types.{RiskLevel, CapabilityClass}
use uads.Model.Types.{
  ModelProfile, ModelExecutionPlan, ModelRoutingStatus, router, enabled, ModelRoutingInput,
}
use uads.Model.Requirements.Floors.{
  capability_rank, reasoning_rank, sensitive_floor, max_capability, quality_floor_for,
  minimum_reasoning_for,
}
use uads.Model.Requirements.Derive.{
  escalation_count, derive_model_requirements, required_class, escalated_class, output_tokens_of,
  or_default, required_capabilities_of, add_capability, input_tokens_of,
}
use uads.Model.Runtime.{effective_capability}
use uads.Model.Router.Compare.{compare_candidate}
use uads.Model.Router.Reject.{
  profile_rejection, profile_findings, status_findings, token_findings, capability_findings,
  support_findings,
}
use uads.Model.Router.Adequate.{IsAdequate, profile_rejection-none_iff}
use uads.Model.Router.Plan.{
  rejections_of, current_requirements, current_tier, prior_tier, routing_schema_version,
}
use uads.Model.Router.Route.{
  candidates, rejections, eligible, is_host_managed, selected_profile, build_plan, route_model,
}
use uads.Model.Router.Selection.{route_model-ok_iff}
use uads.Model.Router.Safety.{
  cmp, route_model_selected, route_model_fail_closed, selected_profile_minimal,
  route_model_complete, route_model_tier, route_model_critical,
}
use uads.Model.Tests.Data.{env, by_length-IsOrder, input, critical_input, middle, top}

-- What the runs compute with.
reads : Unit {0}
unfolding derive_model_requirements required_class escalated_class escalation_count
    quality_floor_for max_capability sensitive_floor minimum_reasoning_for output_tokens_of
    required_capabilities_of add_capability input_tokens_of includes_one includes to_lower_case
    join_words any contains dedupe_from sort_from insert_by filter effective_capability
    compare_candidate profile_rejection profile_findings status_findings token_findings
    capability_findings support_findings rejections_of current_requirements current_tier prior_tier
    candidates rejections eligible is_host_managed selected_profile route_model ◌-ℤ◌
reads = tt

routes : route_model env input ≡ ok (build_plan env input)
unfolding reads
routes = refl

-- The cheaper of the two sufficient profiles runs the order; critical work gets the top one.
chooses :
    (selected_profile env input ≡ some middle) × (selected_profile env critical_input ≡ some top)
unfolding reads
chooses = (refl, refl)

abbrev plan : ModelExecutionPlan
plan = build_plan env input

abbrev critical_plan : ModelExecutionPlan
critical_plan = build_plan env critical_input

critical_routes : route_model env critical_input ≡ ok critical_plan
unfolding reads
critical_routes = refl

critical_selects : critical_plan.selected_profile_id ≡ some "a-top"
unfolding reads build_plan
critical_selects = refl

selects : plan.selected_profile_id ≡ some "b-middle"
unfolding reads build_plan
selects = refl

middle_passes : profile_rejection middle input (current_requirements input) ≡ none
unfolding reads
middle_passes = refl

profile_rejection-none_iff_example :
    (profile_rejection middle input (current_requirements input) ≡ none)
    ↔ IsAdequate input (current_requirements input) middle
profile_rejection-none_iff_example =
    profile_rejection-none_iff input (current_requirements input) middle

route_model-ok_iff_example : ((p : ModelExecutionPlan) × (route_model env input ≡ ok p)) ↔ (
    (or_default input.project_id "prj_1" ≡ "prj_1")
    × (input.registry.schema_version ≡ routing_schema_version)
    × (input.runtime.schema_version ≡ routing_schema_version))
route_model-ok_iff_example = route_model-ok_iff env input

route_model_selected_example :
    (p : ModelProfile) × Memᴰ p (top ∷ middle ∷ [])
    × (p.profile_id ≡ "b-middle")
    × (plan.selected_provider_id ≡ some p.provider_id)
    × (plan.selected_model_id ≡ some p.model_id)
    × IsAdequate input (current_requirements input) p
route_model_selected_example = route_model_selected env input routes selects

route_model_fail_closed_example :
    ((plan.status ≡ ModelRoutingStatus.blocked)
      ↔ ((plan.selected_profile_id ≡ none) × (plan.selection_mode ≡ router)))
    × (plan.status ≡ ModelRoutingStatus.blocked
        → (plan.blocked_reason ≡ some "NO_ELIGIBLE_MODEL") × (plan.fallback_profile_ids ≡ []))
    × (plan.status ≡ ModelRoutingStatus.selected
        → plan.selected_profile_id ≡ none
        → (input.registry.profiles ≡ [])
          × (capability_rank plan.required_capability_class ≤ 1)
          × (input.work_order.risk_level ≢ RiskLevel.critical))
route_model_fail_closed_example = route_model_fail_closed env input routes

selected_profile_minimal_example :
    All
      (λ q.
        Before (cmp env input) middle q
        × (capability_rank middle.capability_class ≤ capability_rank q.capability_class))
      (eligible env input)
selected_profile_minimal_example = selected_profile_minimal env input by_length-IsOrder chooses.0

top-IsAdequate : IsAdequate input (current_requirements input) top
unfolding reads
top-IsAdequate = (profile_rejection-none_iff input (current_requirements input) top).0 refl

middle-IsAdequate : IsAdequate input (current_requirements input) middle
middle-IsAdequate =
    (profile_rejection-none_iff input (current_requirements input) middle).0 middle_passes

route_model_complete_example :
    (plan.status ≡ ModelRoutingStatus.selected) × (plan.selected_profile_id ≢ none)
route_model_complete_example =
    route_model_complete env input middle routes (Memᴰ.tail (Memᴰ.head refl))
      ((λ e. top-IsAdequate), ((λ e. middle-IsAdequate), tt))

abbrev again : ModelRoutingInput
again = record input { previous_plan = some critical_plan }

route_model_tier_example :
    let demanded = capability_rank (derive_model_requirements again).required_capability_class in
    let tier = capability_rank (build_plan env again).required_capability_class in
    (demanded ≤ tier)
    × (critical_plan.work_order_id ≡ "wo_1"
        → tier ≡ max demanded (capability_rank critical_plan.escalation.current_tier))
    × (critical_plan.work_order_id ≢ "wo_1" → tier ≡ demanded)
    × ((build_plan env again).escalation.current_tier
        ≡ (build_plan env again).required_capability_class)
unfolding route_model
route_model_tier_example = route_model_tier env again critical_plan refl refl

route_model_critical_example :
    (p : ModelProfile) × Memᴰ p (top ∷ middle ∷ [])
    × (p.profile_id ≡ "a-top")
    × (p.capability_class ≡ CapabilityClass.critical)
    × (reasoning_rank p.reasoning_class ≡ 3)
    × (p.status ≡ enabled)
route_model_critical_example =
    route_model_critical env critical_input critical_routes critical_selects refl
