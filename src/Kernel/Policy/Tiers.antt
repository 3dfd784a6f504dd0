-- ===== src/Kernel/Policy/Tiers.antt =====
-- src/kernel/policy.ts: the tiers that follow from a scope class and a risk level.
use Prim.Native.String.{String}
use uads.Common.{ℕ, ◌*◌, ◌≤◌, ◌<◌, ◌≡◌, ◌||◌, if◌then◌else◌, ◌==◌, arith}
use uads.Kernel.Types.{
  ScopeClass, trivial, local, cross_cutting, architectural, RiskLevel, medium, high, ContextRadius,
  c1, c2, c3, c4, CapabilityClass, economy, balanced, strong, scope_eq, risk_eq, scope_index,
  risk_index, radius_index,
}

unfoldable pub select_context_radius : ScopeClass → RiskLevel → ContextRadius × String
select_context_radius scope_class risk =
    if risk == RiskLevel.critical || scope_class == architectural
    then (c4, "architectural/critical: connected subsystems, not repository-wide")
    else if risk == high || scope_class == cross_cutting
    then (c3, "cross-cutting or high risk: dependency neighborhood")
    else if scope_class == local
    then (c2, "local module plus focused tests")
    else if scope_class == trivial
    then (c1, "trivial change: named/affected files only")
    else (c2, "default smallest sufficient module radius")

unfoldable pub select_capability_class : RiskLevel → ScopeClass → CapabilityClass
select_capability_class risk scope_class =
    if risk == RiskLevel.critical
    then CapabilityClass.critical
    else if risk == high || scope_class == architectural
    then strong
    else if risk == medium || scope_class == cross_cutting
    then balanced
    else economy

pub record Limits : Type 0 where
  pub soft_limit : ℕ
  pub hard_limit : ℕ

unfoldable pub token_budgets : CapabilityClass → Limits
token_budgets economy = record { soft_limit = 8000; hard_limit = 16000 }
token_budgets balanced = record { soft_limit = 24000; hard_limit = 48000 }
token_budgets strong = record { soft_limit = 48000; hard_limit = 96000 }
token_budgets CapabilityClass.critical = record { soft_limit = 64000; hard_limit = 128000 }

-- A change that is no smaller and no less risky gets no smaller context radius. The radius is
-- never the empty one, which ranks 0, nor the repository-wide one, which ranks 5.
pub select_context_radius_mono :
    (s t : ScopeClass) (r q : RiskLevel)
    → scope_index s ≤ scope_index t
    → risk_index r ≤ risk_index q
    → (radius_index (select_context_radius s r).0 ≤ radius_index (select_context_radius t q).0)
      × (1 ≤ radius_index (select_context_radius s r).0)
      × (radius_index (select_context_radius t q).0 ≤ 4)
unfolding select_context_radius
select_context_radius_mono s t r q h k = ground arith

-- The budget of a change that is no smaller and no less risky is no smaller, in its soft and in
-- its hard limit, and every budget's hard limit is twice its soft limit, which is positive.
pub token_budgets_mono :
    (s t : ScopeClass) (r q : RiskLevel)
    → scope_index s ≤ scope_index t
    → risk_index r ≤ risk_index q
    → let small = token_budgets (select_capability_class r s) in
      let large = token_budgets (select_capability_class q t) in
      (small.soft_limit ≤ large.soft_limit)
      × (small.hard_limit ≤ large.hard_limit)
      × (small.hard_limit ≡ 2 * small.soft_limit)
      × (0 < small.soft_limit)
unfolding select_capability_class token_budgets
token_budgets_mono s t r q h k = ground arith
