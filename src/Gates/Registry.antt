-- ===== src/Gates/Registry.antt =====
-- src/kernel/gates.ts: the registry of gates and its lookups.
use Prim.Native.String.{String}
use text.Mathlib.TextEquality.{eq_iff}
use uads.Common.{
  All, Bool-cases, Option-cases, inl, inr, ap, ◌∙◌, refl, ℕ, ◌≡◌, ◌↔◌, Bool, true, false, List, [],
  ◌∷◌, Option, none, some, map, arith, any, ◌==◌, string_eq, if◌then◌else◌, eqb, Eq, ◌&◌,
}

pub data EvidenceKind : Type 0 where
  command file invariant review : EvidenceKind

pub data GateContractKind : Type 0 where
  command artifact invariant review : GateContractKind

abbrev pub kind_index : EvidenceKind → ℕ
kind_index EvidenceKind.command = 0
kind_index file = 1
kind_index EvidenceKind.invariant = 2
kind_index EvidenceKind.review = 3

pub kind_eq_iff : (a b : EvidenceKind) → (eqb (kind_index a) (kind_index b) ≡ true) ↔ (a ≡ b)
kind_eq_iff a b = ground arith

instance abbrev pub kind_eq : Eq EvidenceKind
kind_eq = record { beq = λ a b. eqb (kind_index a) (kind_index b); beq_iff = kind_eq_iff }

pub record GateDef : Type 0 where
  pub id : String
  pub evidence : String
  pub purpose : String
  pub contract_kind : GateContractKind
  pub allowed_evidence_kinds : List EvidenceKind
  pub requires_exit_code_zero : Bool
  pub requires_output_digest : Bool
  pub reviewer_role : Option String

abbrev pub command_gate : String → String → String → GateDef
command_gate id evidence purpose = record {
  id = id;
  evidence = evidence;
  purpose = purpose;
  contract_kind = GateContractKind.command;
  allowed_evidence_kinds = EvidenceKind.command ∷ [];
  requires_exit_code_zero = true;
  requires_output_digest = true;
  reviewer_role = none;
}

abbrev pub invariant_gate : String → String → String → GateDef
invariant_gate id evidence purpose = record {
  id = id;
  evidence = evidence;
  purpose = purpose;
  contract_kind = GateContractKind.invariant;
  allowed_evidence_kinds = EvidenceKind.invariant ∷ file ∷ EvidenceKind.command ∷ [];
  requires_exit_code_zero = true;
  requires_output_digest = false;
  reviewer_role = none;
}

abbrev pub review_gate : String → String → String → String → GateDef
review_gate id evidence purpose reviewer_role = record {
  id = id;
  evidence = evidence;
  purpose = purpose;
  contract_kind = GateContractKind.review;
  allowed_evidence_kinds = EvidenceKind.review ∷ [];
  requires_exit_code_zero = false;
  requires_output_digest = false;
  reviewer_role = some reviewer_role;
}

abbrev pub gate_registry : List GateDef
gate_registry =
    command_gate "static" "gate:static" "static analysis"
    ∷ command_gate "unit-test" "gate:unit-test" "focused unit/smoke tests"
    ∷ command_gate "integration-test" "gate:integration-test" "integration coverage"
    ∷ command_gate "contract-test" "gate:contract-test" "public contract assertions"
    ∷ command_gate "build" "gate:build" "compile/build"
    ∷ review_gate "security-review" "gate:security-review" "independent security review"
        "security-reviewer"
    ∷ command_gate "dependency-audit" "gate:dependency-audit" "dependency/supply-chain audit"
    ∷ review_gate "performance-check" "gate:performance-check" "hot-path regression check"
        "performance-reviewer"
    ∷ invariant_gate "architecture-conformance" "gate:architecture-conformance"
        "architecture conformance"
    ∷ command_gate "database-migration" "gate:database-migration" "migration test"
    ∷ command_gate "rollback-validation" "gate:rollback-validation" "rollback/integrity validation"
    ∷ command_gate "web3-unit" "gate:web3-unit" "contract unit tests"
    ∷ command_gate "web3-fuzz" "gate:web3-fuzz" "contract fuzzing"
    ∷ invariant_gate "web3-invariant" "gate:web3-invariant" "contract invariants"
    ∷ invariant_gate "financial-numerical-validation" "gate:financial-numerical-validation"
        "numerical validation"
    ∷ invariant_gate "simulation-invariant" "gate:simulation-invariant" "simulation invariants"
    ∷ command_gate "release-check" "gate:release-check" "release readiness"
    ∷ []

-- `GATE_REGISTRY.find((gate) => gate.id === id)`
unfoldable pub find_gate : List GateDef → String → Option GateDef
find_gate [] id = none
find_gate (g ∷ gs) id = if g.id == id then some g else find_gate gs id

unfoldable pub gate_def : String → Option GateDef
gate_def id = find_gate gate_registry id

abbrev evidence_or : Option GateDef → String → String
evidence_or none id = "gate:" & id
evidence_or (some g) id = g.evidence

unfoldable pub gate_evidence : String → String
gate_evidence id = evidence_or (gate_def id) id

abbrev pub mandatory_gate_ids : List String
mandatory_gate_ids = map (λ g. g.id) gate_registry

abbrev role_or_none : Option GateDef → Option String
role_or_none none = none
role_or_none (some g) = g.reviewer_role

-- `REVIEW_GATE_ROLES[gateId]`: the gates with a reviewer role are its keys.
unfoldable pub review_gate_role : String → Option String
review_gate_role id = role_or_none (gate_def id)

abbrev is_some {ℓ} : {A : Type ℓ} → Option A → Bool
is_some none = false
is_some (some a) = true

unfoldable pub is_review_gate : String → Bool
is_review_gate id = is_some (review_gate_role id)

unfoldable pub is_known_gate_id : String → Bool
is_known_gate_id id = any (λ g. g.id == id) gate_registry

module _ {ℓ} (P : GateDef → Type ℓ) where
  -- A gate that is found has the id that was asked for, and what all gates have.
  pub find_gate-some :
      (gs : List GateDef) (id : String) {g : GateDef}
      → All P gs
      → find_gate gs id ≡ some g
      → P g × (g.id ≡ id)
  unfolding find_gate
  find_gate-some [] id h e = cc
  find_gate-some (x ∷ gs) id {g} h e = elim (Bool-cases (x.id == id)) [
    | inl same ↦
        let whole : some x ≡ some g = rw same at e in
        let found : x ≡ g = cc whole in rw (← found) (h.0, (eq_iff x.id id).0 same)
    | inr other ↦ find_gate-some gs id h.1 (rw other at e)
  ]

-- Every gate of the registry is the one that its id finds, so no id stands twice.
pub gate_registry_unique : All (λ g. gate_def g.id ≡ some g) gate_registry
unfolding gate_def find_gate
gate_registry_unique = ground arith

registry_evidence : All (λ g. g.evidence ≡ "gate:" & g.id) gate_registry
registry_evidence = (
  refl,
  (
    refl,
    (
      refl,
      (
        refl,
        (
          refl,
          (
            refl,
            (
              refl,
              (refl, (refl, (refl, (refl, (refl, (refl, (refl, (refl, (refl, (refl, tt)))))))))),
            ),
          ),
        ),
      ),
    ),
  ),
)

-- The evidence name of any gate, listed or not, is `gate:` and its id.
pub gate_evidence-eq : (id : String) → gate_evidence id ≡ "gate:" & id
unfolding gate_evidence gate_def
gate_evidence-eq id = elim (Option-cases (find_gate gate_registry id)) [
  | inl missing ↦ rw missing
  | inr (g, found) ↦
      let (named, same) =
        find_gate-some (λ g. g.evidence ≡ "gate:" & g.id) gate_registry id registry_evidence
          found in
      rw found (named ∙ ap (λ (s : String). "gate:" & s) same)
]
