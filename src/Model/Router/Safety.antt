-- ===== src/Model/Router/Safety.antt =====
-- What a plan of src/kernel/model-router.ts guarantees.
use Prim.Native.String.{String}
use uads.Common.{
  ◌≤◌, ◌≡◌, ◌≢◌, ◌↔◌, refl, sym, ap, ◌∙◌, List, [], ◌∷◌, none, some, arith, string_eq, Option-cases,
  inl, inr, Memᴰ, All, All-map, max,
}
use uads.Common.Int.{ℤ, pos, ◌-ℤ◌, or_else_le, -ℤ_parts}
use uads.Common.Result.{ok}
use uads.Common.Sort.{Before, IsOrder, sort_by_first, All-sort_by}
use uads.Kernel.Types.{RiskLevel, CapabilityClass, risk_eq}
use uads.Model.Types.{
  ModelProfile, ModelRoutingStatus, router, ModelExecutionPlan, ModelRoutingInput, enabled,
}
use uads.Model.Requirements.Floors.{
  capability_rank, reasoning_rank, minimum_reasoning_for_rank, max_capability_rank,
}
use uads.Model.Requirements.Derive.{derive_model_requirements}
use uads.Model.Requirements.Escalation.{required_class_critical}
use uads.Model.Router.Compare.{compare_candidate, compare_candidate-IsOrder}
use uads.Model.Router.Adequate.{IsAdequate}
use uads.Model.Router.Plan.{
  RoutingEnv, prior_tier, current_tier, selected_field, current_requirements,
}
use uads.Model.Router.Route.{eligible, is_host_managed, selected_profile, build_plan, route_model}
use uads.Model.Router.Choice.{eligible-IsFit, fit_of_eligible}
use uads.Model.Router.Selection.{route_model-eq-ok, is_host_managed_iff, selected_profile-some}

module _ (env : RoutingEnv) (input : ModelRoutingInput) where
  selected_of_id :
      {id : String}
      → (build_plan env input).selected_profile_id ≡ some id
      → (p : ModelProfile) × (selected_profile env input ≡ some p) × (p.profile_id ≡ id)
  unfolding build_plan
  selected_of_id h = elim (Option-cases (selected_profile env input)) [
    | inl missing ↦ cc (h, ap (λ s. selected_field s (λ p. p.profile_id)) missing)
    | inr (p, found) ↦
        (p, found, ground (arith, h, ap (λ s. selected_field s (λ p. p.profile_id)) found))
  ]

  selected_fit :
      {p : ModelProfile}
      → selected_profile env input ≡ some p
      → Memᴰ p input.registry.profiles × IsAdequate input (current_requirements input) p
  selected_fit {p} found =
      let (rest, first) = selected_profile-some env input found in
      let fits : All
          (λ q. Memᴰ q input.registry.profiles × IsAdequate input (current_requirements input) q)
          (p ∷ rest) =
        rw first at (eligible-IsFit env input) in
      fits.0

  -- A profile that a plan selects is registered, has the ids that the plan names, and is adequate
  -- for the requirements of the current tier.
  pub route_model_selected :
      {plan : ModelExecutionPlan} {id : String}
      → route_model env input ≡ ok plan
      → plan.selected_profile_id ≡ some id
      → (p : ModelProfile) × Memᴰ p input.registry.profiles
        × (p.profile_id ≡ id)
        × (plan.selected_provider_id ≡ some p.provider_id)
        × (plan.selected_model_id ≡ some p.model_id)
        × IsAdequate input (current_requirements input) p
  route_model_selected h s =
      let built = route_model-eq-ok env input h in
      let (p, found, named) = selected_of_id (sym (ap (λ q. q.selected_profile_id) built) ∙ s) in
      let (listed, adequate) = selected_fit found in
      (
        p,
        listed,
        named,
        ap (λ q. q.selected_provider_id) built ∙ provider found,
        ap (λ q. q.selected_model_id) built ∙ model found,
        adequate,
      )
    where
      provider :
          {p : ModelProfile}
          → selected_profile env input ≡ some p
          → (build_plan env input).selected_provider_id ≡ some p.provider_id
      provider found = unfold build_plan in ap (λ s. selected_field s (λ p. p.provider_id)) found

      model :
          {p : ModelProfile}
          → selected_profile env input ≡ some p
          → (build_plan env input).selected_model_id ≡ some p.model_id
      model found = unfold build_plan in ap (λ s. selected_field s (λ p. p.model_id)) found

  -- What a plan says when nothing is selected, and when it may say so. It is BLOCKED exactly when
  -- no profile is selected and the host does not manage the model; then it gives its reason, selects
  -- nothing and falls back on nothing. Where it is not blocked and selects nothing, the registry is
  -- empty, the tier is at most `balanced` and the work is not CRITICAL.
  pub route_model_fail_closed :
      {plan : ModelExecutionPlan}
      → route_model env input ≡ ok plan
      → ((plan.status ≡ ModelRoutingStatus.blocked)
          ↔ ((plan.selected_profile_id ≡ none) × (plan.selection_mode ≡ router)))
        × (plan.status ≡ ModelRoutingStatus.blocked
            → (plan.blocked_reason ≡ some "NO_ELIGIBLE_MODEL") × (plan.fallback_profile_ids ≡ []))
        × (plan.status ≡ ModelRoutingStatus.selected
            → plan.selected_profile_id ≡ none
            → (input.registry.profiles ≡ [])
              × (capability_rank plan.required_capability_class ≤ 1)
              × (input.work_order.risk_level ≢ RiskLevel.critical))
  unfolding build_plan selected_profile
  route_model_fail_closed h =
      let built = route_model-eq-ok env input h in
      let managed = (is_host_managed_iff env input).0 in
      (ground (arith, built), ground (arith, built), ground (arith, built, managed))

  abbrev pub cmp : ModelProfile → ModelProfile → ℤ
  cmp a b =
      compare_candidate env.locale_compare a b
        (current_requirements input).required_capability_class
        (current_requirements input).minimum_reasoning_class
        (current_requirements input).estimated_input_tokens

  Before-rank :
      (p q : ModelProfile)
      → Before cmp p q
      → capability_rank p.capability_class ≤ capability_rank q.capability_class
  unfolding compare_candidate
  Before-rank p q h =
      let required = pos (capability_rank (current_requirements input).required_capability_class) in
      let a = pos (capability_rank p.capability_class) in
      let b = pos (capability_rank q.capability_class) in
      ground (
        arith,
        or_else_le (a -ℤ required) (b -ℤ required) _ h,
        -ℤ_parts a required,
        -ℤ_parts b required,
      )

  first_eligible :
      (o : IsOrder env.locale_compare) {p : ModelProfile} {rest : List ModelProfile}
      → eligible env input ≡ p ∷ rest
      → All (Before cmp p) (eligible env input)
  unfolding eligible
  first_eligible o {p} first =
      let order =
        compare_candidate-IsOrder env.locale_compare o
          (current_requirements input).required_capability_class
          (current_requirements input).minimum_reasoning_class
          (current_requirements input).estimated_input_tokens in
      All-sort_by cmp (Before cmp p) _ (sort_by_first cmp order _ first)

  -- Minimum sufficient choice: where `localeCompare` orders the ids, no eligible profile comes
  -- before the selected one by the source's comparator, and none has a lower capability class.
  pub selected_profile_minimal :
      (o : IsOrder env.locale_compare) {p : ModelProfile}
      → selected_profile env input ≡ some p
      → All
          (λ q.
            Before cmp p q
            × (capability_rank p.capability_class ≤ capability_rank q.capability_class))
          (eligible env input)
  selected_profile_minimal o {p} found =
      let (rest, first) = selected_profile-some env input found in
      All-map (eligible env input) (λ q b. (b, Before-rank p q b)) (first_eligible o first)

  selected_of_eligible :
      {plan : ModelExecutionPlan} (q : ModelProfile) (qs : List ModelProfile)
      → route_model env input ≡ ok plan
      → eligible env input ≡ q ∷ qs
      → (plan.status ≡ ModelRoutingStatus.selected) × (plan.selected_profile_id ≢ none)
  unfolding build_plan selected_profile is_host_managed
  selected_of_eligible q qs h e =
      let built = route_model-eq-ok env input h in (ground (arith, built), ground (arith, built))

  -- No needless block: if a registered profile is adequate, and so is every other with its id, then
  -- the plan is SELECTED.
  pub route_model_complete :
      {plan : ModelExecutionPlan} (p : ModelProfile)
      → route_model env input ≡ ok plan
      → Memᴰ p input.registry.profiles
      → All
          (λ q. q.profile_id ≡ p.profile_id → IsAdequate input (current_requirements input) q)
          input.registry.profiles
      → (plan.status ≡ ModelRoutingStatus.selected) × (plan.selected_profile_id ≢ none)
  route_model_complete {plan} p h listed unique =
      let built = route_model-eq-ok env input h in go (eligible env input) refl
    where
      go :
          (es : List ModelProfile)
          → eligible env input ≡ es
          → (plan.status ≡ ModelRoutingStatus.selected) × (plan.selected_profile_id ≢ none)
      go [] e = absurd (fit_of_eligible env input (λ q. ⊥) p listed unique (rw e tt))
      go (q ∷ qs) e = selected_of_eligible q qs h e

  -- The tier never falls: not below what the order demands, and not below the tier of a previous
  -- plan for the same work order; and it is no higher than the higher of the two.
  pub route_model_tier :
      {plan : ModelExecutionPlan} (previous : ModelExecutionPlan)
      → route_model env input ≡ ok plan
      → input.previous_plan ≡ some previous
      → let demanded =
          capability_rank (derive_model_requirements input).required_capability_class in
        let tier = capability_rank plan.required_capability_class in
        (demanded ≤ tier)
        × (previous.work_order_id ≡ input.work_order.work_order_id
            → tier ≡ max demanded (capability_rank previous.escalation.current_tier))
        × (previous.work_order_id ≢ input.work_order.work_order_id → tier ≡ demanded)
        × (plan.escalation.current_tier ≡ plan.required_capability_class)
  unfolding build_plan current_tier prior_tier
  route_model_tier previous h e =
      let built = route_model-eq-ok env input h in
      let required = (derive_model_requirements input).required_capability_class in
      ground (
        arith,
        built,
        max_capability_rank required previous.escalation.current_tier,
        string_eq.beq_iff previous.work_order_id input.work_order.work_order_id,
      )

  tier_ge_required :
      capability_rank (derive_model_requirements input).required_capability_class
      ≤ capability_rank (current_tier input)
  unfolding current_tier
  tier_ge_required = grind (arith, max_capability_rank)

  critical_profile :
      (p : ModelProfile)
      → input.work_order.risk_level ≡ RiskLevel.critical
      → IsAdequate input (current_requirements input) p
      → (p.capability_class ≡ CapabilityClass.critical)
        × (reasoning_rank p.reasoning_class ≡ 3)
        × (p.status ≡ enabled)
  unfolding current_requirements
  critical_profile p c adequate =
      let (demanded, _, _) = required_class_critical input c in
      let tier = tier_ge_required in
      let reached = adequate.class_reached in
      let depth = adequate.reasoning_reached in
      let rank = minimum_reasoning_for_rank (current_tier input) in
      (
        ground (arith, demanded, tier, reached),
        ground (arith, demanded, tier, depth, rank),
        ground (arith, c, adequate.not_disabled, adequate.experimental_allowed),
      )

  -- CRITICAL work never runs on less: a profile selected for it is registered, of class
  -- `critical` with deep reasoning, and enabled.
  pub route_model_critical :
      {plan : ModelExecutionPlan} {id : String}
      → route_model env input ≡ ok plan
      → plan.selected_profile_id ≡ some id
      → input.work_order.risk_level ≡ RiskLevel.critical
      → (p : ModelProfile) × Memᴰ p input.registry.profiles
        × (p.profile_id ≡ id)
        × (p.capability_class ≡ CapabilityClass.critical)
        × (reasoning_rank p.reasoning_class ≡ 3)
        × (p.status ≡ enabled)
  route_model_critical h s c =
      let (p, listed, named, _, _, adequate) = route_model_selected h s in
      let (class, depth, tried) = critical_profile p c adequate in
      (p, listed, named, class, depth, tried)
