-- ===== src/Model/Requirements/Escalation.antt =====
-- What `deriveModelRequirements` promises: the required class in closed form, the floors that it
-- keeps, and what a CRITICAL order demands.
use Prim.Native.String.{String}
use uads.Common.{
  ap, ℕ, ◌+◌, ◌/◌, ◌≤◌, min, max, ◌∙◌, ◌≡◌, true, false, [], length, Option, none, some, arith,
  contains, string_eq, contains-dedupe_from,
}
use uads.Common.Sort.{contains-sort_by}
use uads.Kernel.Types.{RiskLevel, CapabilityClass}
use uads.Model.Types.{ModelRoutingFailureSignals, ModelRoutingInput, capability_eq}
use uads.Model.Requirements.Floors.{
  capability_rank, reasoning_rank, quality_floor_for, risk_floor, scope_floor, sensitive_floor,
  rank_inj, minimum_reasoning_for_rank, quality_floor_for_rank,
}
use uads.Model.Requirements.Derive.{
  no_signals, or_default, escalation_count, escalated_class, required_class, output_tokens_of,
  text_order, derive_model_requirements,
}

abbrev pub preferred_rank : Option CapabilityClass → ℕ
preferred_rank none = 0
preferred_rank (some c) = capability_rank c

abbrev pub signals_of : ModelRoutingInput → ModelRoutingFailureSignals
signals_of input = or_default input.failure_signals no_signals

escalated_class_rank :
    (floor : CapabilityClass) (failures : ModelRoutingFailureSignals)
    → capability_rank (escalated_class floor failures)
      ≡ min 3 (capability_rank floor + min 2 (escalation_count failures))
unfolding escalated_class
escalated_class_rank floor failures = ground arith

-- The required class in closed form: the quality floor, raised by one step for one failure signal
-- and by two for more, at most to `critical`, and then to the preferred class if that is higher.
pub required_class_rank :
    (input : ModelRoutingInput)
    → capability_rank (derive_model_requirements input).required_capability_class
      ≡ max
          (min 3 (
            capability_rank (quality_floor_for input.work_order).0
            + min 2 (escalation_count (signals_of input))))
          (preferred_rank input.preferred_capability_class)
unfolding derive_model_requirements required_class
required_class_rank input =
    ground (arith, escalated_class_rank (quality_floor_for input.work_order).0 (signals_of input))

capability_rank-le : (c : CapabilityClass) → capability_rank c ≤ 3
capability_rank-le c = ground arith

rank_ge_floor :
    (input : ModelRoutingInput)
    → capability_rank (quality_floor_for input.work_order).0
      ≤ capability_rank (derive_model_requirements input).required_capability_class
rank_ge_floor input =
    omega
      (arith, required_class_rank input, capability_rank-le (quality_floor_for input.work_order).0)

reasoning_keeps :
    (input : ModelRoutingInput)
    → reasoning_rank (derive_model_requirements input).minimum_reasoning_class
      ≡ capability_rank (derive_model_requirements input).required_capability_class
unfolding derive_model_requirements
reasoning_keeps input = minimum_reasoning_for_rank _

-- No demand falls below a floor: not below the budget's class, the risk's, the scope's, the
-- sensitive words', nor the preferred class; and the reasoning demanded ranks with the class.
pub required_class_floors :
    (input : ModelRoutingInput)
    → let required = derive_model_requirements input in
      let order = input.work_order in
      let rank = capability_rank required.required_capability_class in
      (capability_rank order.token_budget.capability_class ≤ rank)
      × (capability_rank (risk_floor order.risk_level) ≤ rank)
      × (capability_rank (scope_floor order.scope_class) ≤ rank)
      × (capability_rank (sensitive_floor order) ≤ rank)
      × (preferred_rank input.preferred_capability_class ≤ rank)
      × (reasoning_rank required.minimum_reasoning_class ≡ rank)
required_class_floors input =
    let keep = rank_ge_floor input in
    let highest = (quality_floor_for_rank input.work_order).0 in
    (
      omega (arith, keep, highest),
      omega (arith, keep, highest),
      omega (arith, keep, highest),
      omega (arith, keep, highest),
      omega (arith, required_class_rank input),
      reasoning_keeps input,
    )

escalation_count_mono :
    (few more : ModelRoutingFailureSignals)
    → few.repeated_distinct_failures ≤ more.repeated_distinct_failures
    → (few.loop_detected ≡ true → more.loop_detected ≡ true)
    → (few.unresolved_ambiguity ≡ true → more.unresolved_ambiguity ≡ true)
    → (few.failed_architecture_review ≡ true → more.failed_architecture_review ≡ true)
    → length few.explicit_reasons ≤ length more.explicit_reasons
    → escalation_count few ≤ escalation_count more
unfolding escalation_count
escalation_count_mono few more repeated looped ambiguous failed reasons = ground arith

-- More failure signals never demand less of the model, all else equal: neither more repeated
-- failures, nor a loop, an ambiguity or a failed review of the architecture, nor more reasons of
-- the caller's own.
pub required_class_mono :
    (input : ModelRoutingInput) (few more : ModelRoutingFailureSignals)
    → few.repeated_distinct_failures ≤ more.repeated_distinct_failures
    → (few.loop_detected ≡ true → more.loop_detected ≡ true)
    → (few.unresolved_ambiguity ≡ true → more.unresolved_ambiguity ≡ true)
    → (few.failed_architecture_review ≡ true → more.failed_architecture_review ≡ true)
    → length few.explicit_reasons ≤ length more.explicit_reasons
    → let rank = λ (f : ModelRoutingFailureSignals).
      capability_rank
        (derive_model_requirements
          (record input { failure_signals = some f })).required_capability_class in
      rank few ≤ rank more
required_class_mono input few more repeated looped ambiguous failed reasons = omega (
  arith,
  required_class_rank (record input { failure_signals = some few }),
  required_class_rank (record input { failure_signals = some more }),
  escalation_count_mono few more repeated looped ambiguous failed reasons,
)

no_experimental :
    (input : ModelRoutingInput)
    → input.work_order.risk_level ≡ RiskLevel.critical
    → (derive_model_requirements input).allow_experimental ≡ false
unfolding derive_model_requirements
no_experimental input h = ground arith

-- A CRITICAL order demands a critical model with deep reasoning and admits no experimental one,
-- whatever the caller allows or prefers.
pub required_class_critical :
    (input : ModelRoutingInput)
    → input.work_order.risk_level ≡ RiskLevel.critical
    → let required = derive_model_requirements input in
      (required.required_capability_class ≡ CapabilityClass.critical)
      × (reasoning_rank required.minimum_reasoning_class ≡ 3)
      × (required.allow_experimental ≡ false)
required_class_critical input h =
    let (_, top, _, _, _, reasoning) = required_class_floors input in
    let required = derive_model_requirements input in
    let limit = capability_rank-le required.required_capability_class in
    let risk = ap (λ r. capability_rank (risk_floor r)) h in
    (
      rank_inj required.required_capability_class CapabilityClass.critical
          (omega (arith, top, risk, limit)),
      omega (arith, top, risk, limit, reasoning),
      no_experimental input h,
    )

-- A provider is blocked exactly when the caller blocks it.
pub contains-blocked_provider_ids :
    (input : ModelRoutingInput) (provider : String)
    → contains (derive_model_requirements input).blocked_provider_ids provider
      ≡ contains input.blocked_provider_ids provider
unfolding derive_model_requirements contains
contains-blocked_provider_ids input provider =
    contains-sort_by text_order provider _
    ∙ contains-dedupe_from [] input.blocked_provider_ids provider

-- Where the caller names no output reserve, it is a quarter of the hard limit held between 512 and
-- 4096 tokens.
pub output_tokens_default :
    (input : ModelRoutingInput)
    → input.required_output_tokens ≡ none
    → let reserve = (derive_model_requirements input).required_output_tokens in
      let quarter = input.work_order.token_budget.hard_limit / 4 in
      (512 ≤ reserve) × (reserve ≤ 4096) × (512 ≤ quarter → quarter ≤ 4096 → reserve ≡ quarter)
unfolding derive_model_requirements output_tokens_of
output_tokens_default input h = ground arith
