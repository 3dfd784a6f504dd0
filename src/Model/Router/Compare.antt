-- ===== src/Model/Router/Compare.antt =====
-- `compareCandidate` of src/kernel/model-router.ts, a chain of lexicographic steps, and the order
-- that it is. `localeCompare` of the JavaScript engine is a parameter.
use Prim.Native.String.{String}
use mathlib.Core.Logic.{◌⊎◌}
use uads.Common.{ℕ, Option, none, some}
use uads.Common.Int.{
  ℤ, pos, negsuc, sub_ℕ, ◌-ℤ◌, or_else, or_else_trans, or_else_trans_rev, or_else_total,
}
use uads.Common.Sort.{Before, IsOrder}
use uads.Kernel.Types.{CapabilityClass}
use uads.Model.Types.{
  ReasoningClass, RelativeClass, very_low, low, medium, high, very_high, ModelProfile,
}
use uads.Model.Requirements.Floors.{capability_rank, reasoning_rank}

-- `COST_RANK` and `LATENCY_RANK`
abbrev pub relative_rank : RelativeClass → ℕ
relative_rank very_low = 0
relative_rank low = 1
relative_rank medium = 2
relative_rank high = 3
relative_rank very_high = 4
relative_rank RelativeClass.unknown = 99

-- The tokens that a context window leaves free; -1 where the window is not known.
abbrev pub headroom : Option ℕ → ℕ → ℤ
headroom none estimated = negsuc 0
headroom (some window) estimated = sub_ℕ window estimated

abbrev overshoot : ModelProfile → CapabilityClass → ℤ
overshoot p required = pos (capability_rank p.capability_class) -ℤ pos (capability_rank required)

abbrev reasoning_overshoot : ModelProfile → ReasoningClass → ℤ
reasoning_overshoot p required =
    pos (reasoning_rank p.reasoning_class) -ℤ pos (reasoning_rank required)

module _ (locale_compare : String → String → ℤ) where
  unfoldable pub compare_candidate :
      ModelProfile → ModelProfile → CapabilityClass → ReasoningClass → ℕ → ℤ
  compare_candidate a b required_class required_reasoning estimated =
      or_else (overshoot a required_class -ℤ overshoot b required_class) (
        or_else
          (reasoning_overshoot a required_reasoning -ℤ reasoning_overshoot b required_reasoning)
          (or_else
            (headroom b.context_window_tokens estimated
              -ℤ headroom a.context_window_tokens estimated)
            (or_else
              (pos (relative_rank a.relative_cost_class)
                -ℤ pos (relative_rank b.relative_cost_class))
              (or_else
                (pos (relative_rank a.relative_latency_class)
                  -ℤ pos (relative_rank b.relative_latency_class))
                (locale_compare a.profile_id b.profile_id)))))

module _ (locale_compare : String → String → ℤ) (o : IsOrder locale_compare)
    (required_class : CapabilityClass) (required_reasoning : ReasoningClass) (estimated : ℕ) where
  abbrev cmp : ModelProfile → ModelProfile → ℤ
  cmp a b = compare_candidate locale_compare a b required_class required_reasoning estimated

  cost : ModelProfile → ℤ
  cost a = pos (relative_rank a.relative_cost_class)

  latency : ModelProfile → ℤ
  latency a = pos (relative_rank a.relative_latency_class)

  room : ModelProfile → ℤ
  room a = headroom a.context_window_tokens estimated

  cmp_trans : (a b c : ModelProfile) → Before cmp a b → Before cmp b c → Before cmp a c
  unfolding compare_candidate cost latency room
  cmp_trans a b c =
      let class = λ (p : ModelProfile). overshoot p required_class in
      let depth = λ (p : ModelProfile). reasoning_overshoot p required_reasoning in
      or_else_trans (class a) (class b) (class c) _ _ _ (
        or_else_trans (depth a) (depth b) (depth c) _ _ _ (
          or_else_trans_rev (room a) (room b) (room c) _ _ _ (
            or_else_trans (cost a) (cost b) (cost c) _ _ _ (
              or_else_trans (latency a) (latency b) (latency c) _ _ _
                (o.trans a.profile_id b.profile_id c.profile_id)))))

  cmp_total : (a b : ModelProfile) → Before cmp a b ⊎ Before cmp b a
  unfolding compare_candidate cost latency room
  cmp_total a b =
      let class = λ (p : ModelProfile). overshoot p required_class in
      let depth = λ (p : ModelProfile). reasoning_overshoot p required_reasoning in
      or_else_total (class a) (class b) _ _ (
        or_else_total (depth a) (depth b) _ _ (
          or_else_total (room b) (room a) _ _ (
            or_else_total (cost a) (cost b) _ _
              (or_else_total (latency a) (latency b) _ _ (o.total a.profile_id b.profile_id)))))

  -- The comparator is a total preorder wherever `localeCompare` is one.
  pub compare_candidate-IsOrder :
      IsOrder
        (λ a b. compare_candidate locale_compare a b required_class required_reasoning estimated)
  compare_candidate-IsOrder = record { total = cmp_total; trans = cmp_trans }
