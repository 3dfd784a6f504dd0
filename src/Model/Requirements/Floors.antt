-- ===== src/Model/Requirements/Floors.antt =====
-- src/kernel/model-requirements.ts: the ranks, the quality floor, the complexity and the
-- uncertainty of a work order.
use Prim.Native.String.{String}
use uads.Common.{
  ℕ, ◌+◌, ◌*◌, ◌≤◌, ◌<◌, min, max, ap, ◌≡◌, ◌↔◌, ◌||◌, List, [], ◌∷◌, some, arith, leb, eqb,
  if◌then◌else◌, length, get_elem?, to_lower_case, includes_one, join_words, ◌&◌, ◌==◌,
}
use uads.Kernel.Types.{
  ScopeClass, trivial, local, cross_cutting, architectural, RiskLevel, low, medium, high,
  CapabilityClass, economy, balanced, strong, WorkOrder, capability_text, scope_eq, risk_eq,
}
use uads.Kernel.Policy.Tiers.{select_capability_class}
use uads.Model.Types.{
  ReasoningClass, basic, standard, advanced, deep, Complexity, moderate, complex,
}

abbrev pub class_order : List CapabilityClass
class_order = economy ∷ balanced ∷ strong ∷ CapabilityClass.critical ∷ []

abbrev pub capability_rank : CapabilityClass → ℕ
capability_rank economy = 0
capability_rank balanced = 1
capability_rank strong = 2
capability_rank CapabilityClass.critical = 3

abbrev pub reasoning_rank : ReasoningClass → ℕ
reasoning_rank basic = 0
reasoning_rank standard = 1
reasoning_rank advanced = 2
reasoning_rank deep = 3

-- `CLASS_ORDER.indexOf` gives these ranks: the class at a rank has it.
class_order_rank : (c : CapabilityClass) → get_elem? class_order (capability_rank c) ≡ some c
class_order_rank c = ground arith

unfoldable pub max_capability : CapabilityClass → CapabilityClass → CapabilityClass
max_capability a b = if leb (capability_rank b) (capability_rank a) then a else b

abbrev pub risk_floor : RiskLevel → CapabilityClass
risk_floor RiskLevel.critical = CapabilityClass.critical
risk_floor high = strong
risk_floor medium = balanced
risk_floor low = economy

abbrev pub scope_floor : ScopeClass → CapabilityClass
scope_floor architectural = strong
scope_floor cross_cutting = balanced
scope_floor trivial = economy
scope_floor local = economy

-- The alternatives of the source's regular expression.
abbrev sensitive_words : List String
sensitive_words =
    "destructive" ∷ "security" ∷ "financial" ∷ "finance" ∷ "web3" ∷ "smart-contract"
    ∷ "smart contract" ∷ "wallet" ∷ "payment" ∷ "authentication" ∷ "authorization" ∷ []

unfoldable pub sensitive_floor : WorkOrder → CapabilityClass
sensitive_floor order =
    let text = to_lower_case (
      order.objective
      & " "
      & join_words order.domains
      & " "
      & join_words order.risk_reasons
      & " "
      & join_words order.quality_gates) in
    if includes_one text sensitive_words then strong else economy

unfoldable pub quality_floor_for : WorkOrder → CapabilityClass × List String
quality_floor_for order =
    let before = order.token_budget.capability_class in
    let floor =
      max_capability
        (max_capability (max_capability before (risk_floor order.risk_level))
          (scope_floor order.scope_class))
        (sensitive_floor order) in
    (
      floor,
      if eqb (capability_rank floor) (capability_rank before)
          then []
          else ("QUALITY_FLOOR_RAISED:" & capability_text floor) ∷ [],
    )

unfoldable pub minimum_reasoning_for : CapabilityClass → ReasoningClass
minimum_reasoning_for economy = basic
minimum_reasoning_for balanced = standard
minimum_reasoning_for strong = advanced
minimum_reasoning_for CapabilityClass.critical = deep

unfoldable pub complexity_for : WorkOrder → Complexity
complexity_for order =
    if order.risk_level == RiskLevel.critical
    then Complexity.critical
    else if order.scope_class == trivial
    then Complexity.trivial
    else if order.risk_level == high
        || order.scope_class == architectural
        || order.scope_class == cross_cutting
    then complex
    else moderate

abbrev uncertain_words : List String
uncertain_words = "unknown" ∷ "uncertain" ∷ "ambigu" ∷ "unresolved" ∷ "explore" ∷ "investigate" ∷ []

unfoldable pub uncertainty_for : WorkOrder → ℕ
uncertainty_for order =
    let text = to_lower_case (
      order.objective
      & " "
      & join_words order.risk_reasons
      & " "
      & join_words order.recommendations) in
    let score = min 60 (length order.risk_reasons * 8 + length order.affected_areas * 4) in
    let named = if includes_one text uncertain_words then score + 20 else score in
    let scoped = if order.scope_class == architectural then named + 15 else named in min 100 scoped

pub max_capability_rank :
    (a b : CapabilityClass)
    → capability_rank (max_capability a b) ≡ max (capability_rank a) (capability_rank b)
unfolding max_capability
max_capability_rank a b = ground arith

-- The reasoning floor stands as high as the capability floor.
pub minimum_reasoning_for_rank :
    (c : CapabilityClass) → reasoning_rank (minimum_reasoning_for c) ≡ capability_rank c
unfolding minimum_reasoning_for
minimum_reasoning_for_rank c = ground arith

pub rank_inj : (a b : CapabilityClass) → capability_rank a ≡ capability_rank b → a ≡ b
rank_inj a b h = ground arith

-- The quality floor is the highest of the budget's class and the three floors, so it is below none
-- of them; it reports that it was raised exactly when it stands above the budget's class.
pub quality_floor_for_rank :
    (order : WorkOrder)
    → (capability_rank (quality_floor_for order).0
        ≡ max
            (max
              (max
                (capability_rank order.token_budget.capability_class)
                (capability_rank (risk_floor order.risk_level)))
              (capability_rank (scope_floor order.scope_class)))
            (capability_rank (sensitive_floor order)))
      × (((quality_floor_for order).1 ≡ [])
          ↔ ((quality_floor_for order).0 ≡ order.token_budget.capability_class))
unfolding quality_floor_for
quality_floor_for_rank order =
    let a = order.token_budget.capability_class in
    let b = risk_floor order.risk_level in
    let c = scope_floor order.scope_class in
    (
      omega (
        arith,
        max_capability_rank (max_capability (max_capability a b) c) (sensitive_floor order),
        max_capability_rank (max_capability a b) c,
        max_capability_rank a b,
      ),
      ground (arith, rank_inj (quality_floor_for order).0 a),
    )

-- The planner and the router agree: the class that the planner selects for a risk and a scope is the
-- higher of the router's risk floor and scope floor.
pub select_capability_class_floors :
    (risk : RiskLevel) (scope : ScopeClass)
    → select_capability_class risk scope ≡ max_capability (risk_floor risk) (scope_floor scope)
unfolding select_capability_class max_capability
select_capability_class_floors risk scope = ground arith

-- So an order whose budget has the planner's class is raised by its words alone, to `strong`.
pub quality_floor_for_planned :
    (order : WorkOrder)
    → order.token_budget.capability_class
      ≡ select_capability_class order.risk_level order.scope_class
    → (quality_floor_for order).0
      ≡ max_capability order.token_budget.capability_class (sensitive_floor order)
quality_floor_for_planned order h = rank_inj _ _ (
    omega (
      arith,
      ap capability_rank h,
      ap capability_rank (select_capability_class_floors order.risk_level order.scope_class),
      max_capability_rank (risk_floor order.risk_level) (scope_floor order.scope_class),
      (quality_floor_for_rank order).0,
      max_capability_rank order.token_budget.capability_class (sensitive_floor order),
    ))

-- The uncertainty is a percentage, and is the highest only for an architectural change.
pub uncertainty_for_bounds :
    (order : WorkOrder)
    → (uncertainty_for order ≤ 95)
      × (80 < uncertainty_for order → order.scope_class ≡ architectural)
unfolding uncertainty_for
uncertainty_for_bounds order = ground arith
