-- ===== src/Model/Tests/Demands.antt =====
-- What the small work order demands, and the theorems on demands at it.
use uads.Common.{
  ◌≤◌, ◌≡◌, refl, true, false, [], some, arith, contains, string_eq, includes_one, includes,
  to_lower_case, join_words, any, dedupe_from,
}
use uads.Common.Sort.{sort_from}
use uads.Kernel.Types.{CapabilityClass, strong, architectural, low}
use uads.Model.Types.{ModelRoutingFailureSignals, capability_eq}
use uads.Model.Requirements.Floors.{
  capability_rank, reasoning_rank, risk_floor, scope_floor, sensitive_floor, max_capability,
  minimum_reasoning_for, quality_floor_for, uncertainty_for, select_capability_class_floors,
}
use uads.Kernel.Policy.Tiers.{select_capability_class}
use uads.Model.Requirements.Derive.{
  escalation_count, required_class, escalated_class, output_tokens_of, derive_model_requirements,
}
use uads.Model.Requirements.Escalation.{
  required_class_rank, required_class_floors, required_class_mono,
}
use uads.Model.Runtime.{effective_capability}
use uads.Model.Tests.Data.{input, critical_input}

abbrev two_failures : ModelRoutingFailureSignals
two_failures = record {
  repeated_distinct_failures = 1;
  loop_detected = true;
  unresolved_ambiguity = false;
  failed_architecture_review = false;
  explicit_reasons = [];
}

abbrev one_failure : ModelRoutingFailureSignals
one_failure = record two_failures { loop_detected = false }

-- What the runs compute with.
reads : Unit {0}
unfolding derive_model_requirements required_class escalated_class escalation_count
    quality_floor_for max_capability sensitive_floor minimum_reasoning_for output_tokens_of
    uncertainty_for includes_one includes to_lower_case join_words any contains dedupe_from
    sort_from effective_capability
reads = tt

-- Two failure signals take a balanced order to the class `critical`, one takes it to `strong`.
escalates :
    let required = λ (f : ModelRoutingFailureSignals).
      (derive_model_requirements
        (record input { failure_signals = some f })).required_capability_class in
    (required two_failures ≡ CapabilityClass.critical) × (required one_failure ≡ strong)
unfolding reads
escalates = (refl, refl)

select_capability_class_floors_example :
    select_capability_class low architectural
    ≡ max_capability (risk_floor low) (scope_floor architectural)
select_capability_class_floors_example = select_capability_class_floors low architectural

required_class_rank_example :
    capability_rank
      (derive_model_requirements
        (record input { failure_signals = some one_failure })).required_capability_class
    ≡ 2
unfolding reads
required_class_rank_example =
    required_class_rank (record input { failure_signals = some one_failure })

required_class_floors_example :
    let rank =
      capability_rank (derive_model_requirements critical_input).required_capability_class in
    (1 ≤ rank)
    × (3 ≤ rank)
    × (0 ≤ rank)
    × (capability_rank (sensitive_floor critical_input.work_order) ≤ rank)
    × (0 ≤ rank)
    × (reasoning_rank (derive_model_requirements critical_input).minimum_reasoning_class ≡ rank)
required_class_floors_example = required_class_floors critical_input

required_class_mono_example :
    capability_rank
      (derive_model_requirements
        (record input { failure_signals = some one_failure })).required_capability_class
    ≤ capability_rank
        (derive_model_requirements
          (record input { failure_signals = some two_failures })).required_capability_class
required_class_mono_example =
    required_class_mono input one_failure two_failures (omega arith) (λ h. refl) (λ h. h) (λ h. h)
      (omega arith)
