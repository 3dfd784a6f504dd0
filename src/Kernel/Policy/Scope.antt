-- ===== src/Kernel/Policy/Scope.antt =====
-- What the scope classifier of src/kernel/policy.ts promises.
use Prim.Native.String.{String}
use uads.Common.{
  ◌≤◌, ◌≡◌, ◌≢◌, ◌↔◌, refl, false, List, [], ◌∷◌, ◌++◌, arith, contains, length, string_eq, not,
  ◌||◌, contains-dedupe_from, contains-append, filter, ◌==◌,
}
use uads.Kernel.Ids.{unique}
use uads.Kernel.Types.{trivial, local, NormalizedIntake}
use uads.Kernel.Policy.{classify_scope_size}

contains-filter :
    (xs : List String) (a : String)
    → (a == "") ≡ false
    → contains (filter (λ v. not (v == "")) xs) a ≡ contains xs a
unfolding contains filter
contains-filter [] a h = refl
contains-filter (x ∷ xs) a h =
    ground (arith, contains-filter xs a h, string_eq.beq_iff x a, string_eq.beq_iff x "")

-- `unique` keeps every text but the empty one.
contains-unique :
    (xs : List String) (a : String) → (a == "") ≡ false → contains (unique xs) a ≡ contains xs a
unfolding unique contains
contains-unique xs a h =
    ground
      (arith, contains-dedupe_from [] (filter (λ v. not (v == "")) xs) a, contains-filter xs a h)

abbrev pub unrelated : List String
unrelated =
    "unrelated architecture refactors" ∷ "unrelated Web3/tokenomics work"
    ∷ "unrelated marketplace or dashboard features" ∷ []

-- A decision always includes something, always excludes the three kinds of unrelated work, keeps
-- what the intake excludes, and recommends focused tests exactly where the change is not trivial.
pub classify_scope_size_frame :
    (intake : NormalizedIntake) (item : String)
    → (item == "") ≡ false
    → let decision = classify_scope_size intake in
      (decision.included ≢ [])
      × (contains decision.out_of_scope item
          ≡ (contains intake.out_of_scope item || contains unrelated item))
      × ((decision.recommendations ≡ []) ↔ (decision.scope_class ≡ trivial))
unfolding classify_scope_size
classify_scope_size_frame intake item h = (
  ground arith,
  ground (
    arith,
    contains-unique (intake.out_of_scope ++ unrelated) item h,
    contains-append intake.out_of_scope unrelated item,
  ),
  ground arith,
)

-- A change that counts as local has at most two domain signals, none of them `database`,
-- `smart-contracts` or `kernel-runtime`, and carries no migration risk.
pub scope_local_small :
    (intake : NormalizedIntake)
    → (classify_scope_size intake).scope_class ≡ local
    → (length intake.domain_signals ≤ 2)
      × (contains intake.domain_signals "database" ≡ false)
      × (contains intake.domain_signals "smart-contracts" ≡ false)
      × (contains intake.domain_signals "kernel-runtime" ≡ false)
      × (contains intake.risk_signals "database-migration" ≡ false)
unfolding classify_scope_size
scope_local_small intake h = ground arith
