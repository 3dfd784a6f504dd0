-- ===== src/Gates/Reuse.antt =====
-- The reuse classes of src/kernel/cache-policy.ts: which gates may pass on evidence of an earlier
-- run.
use Prim.Native.String.{String}
use uads.Common.Find.{All-of_contains}
use uads.Common.{
  All, refl, ◌≡◌, Bool, true, false, List, [], ◌∷◌, some, arith, contains, ◌==◌, string_eq,
  if◌then◌else◌,
}
use uads.Gates.Registry.{
  GateContractKind, GateDef, gate_def, find_gate, is_review_gate, review_gate_role,
}

pub data ReuseClass : Type 0 where
  eligible not_reusable : ReuseClass

abbrev eligible_gates : List String
eligible_gates = "static" ∷ "unit-test" ∷ "contract-test" ∷ "build" ∷ "web3-unit" ∷ []

unfoldable pub reuse_class_for_gate : String → ReuseClass
reuse_class_for_gate id =
    if is_review_gate id
    then not_reusable
    else if id == "integration-test"
    then not_reusable
    else if contains eligible_gates id
    then eligible
    else not_reusable

unfoldable pub requires_environment_identity : String → Bool
requires_environment_identity id = id == "integration-test"

abbrev is_eligible : ReuseClass → Bool
is_eligible eligible = true
is_eligible not_reusable = false

unfoldable pub is_cache_eligible_gate : String → Bool
is_cache_eligible_gate id = is_eligible (reuse_class_for_gate id)

abbrev IsCommandGate : String → Type 0
IsCommandGate id =
    (g : GateDef) × (gate_def id ≡ some g)
    × (g.contract_kind ≡ GateContractKind.command)
    × (g.requires_exit_code_zero ≡ true)
    × (g.requires_output_digest ≡ true)
    × (is_review_gate id ≡ false)

eligible_gates-IsCommandGate : All IsCommandGate eligible_gates
unfolding gate_def find_gate is_review_gate review_gate_role
eligible_gates-IsCommandGate = (
  (_, refl, refl, refl, refl, refl),
  (
    (_, refl, refl, refl, refl, refl),
    (
      (_, refl, refl, refl, refl, refl),
      ((_, refl, refl, refl, refl, refl), ((_, refl, refl, refl, refl, refl), tt)),
    ),
  ),
)

eligible_contains :
    (id : String) → is_cache_eligible_gate id ≡ true → contains eligible_gates id ≡ true
unfolding is_cache_eligible_gate reuse_class_for_gate
eligible_contains id h = ground arith

-- A gate whose evidence may be reused is in the registry as a command gate, which demands exit
-- code 0 and an output digest, and is no review gate.
pub is_cache_eligible_gate-command :
    (id : String)
    → is_cache_eligible_gate id ≡ true
    → (g : GateDef) × (gate_def id ≡ some g)
      × (g.contract_kind ≡ GateContractKind.command)
      × (g.requires_exit_code_zero ≡ true)
      × (g.requires_output_digest ≡ true)
      × (is_review_gate id ≡ false)
is_cache_eligible_gate-command id h =
    All-of_contains IsCommandGate eligible_gates id eligible_gates-IsCommandGate
      (eligible_contains id h)
