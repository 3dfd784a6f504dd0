-- ===== src/Assurance/Types.antt =====
-- What src/kernel/assurance-policy.ts reads and returns: the specialist selection of
-- src/kernel/specialist-types.ts, the policy's input and its result. Of a selection and of a plan
-- the fields that the policy reads are modelled; the rest of them reaches it only through the
-- plan's digest.
use Prim.Native.String.{String}
use uads.Common.{ℕ, ◌≡◌, ◌↔◌, Bool, true, List, Option, arith, eqb, Eq}
use uads.Common.{string_eq}
use uads.Common.Int.{ℤ}
use uads.Kernel.Types.{WorkOrder}
use uads.Kernel.Execution.{ExecutionRun}
use uads.Gates.Records.{EvidenceRecord, ReviewRecord, GateStateSnapshot}

pub data ObligationKind : Type 0 where
  domain gate evidence assurance affected_area dependency : ObligationKind

abbrev pub obligation_index : ObligationKind → ℕ
obligation_index domain = 0
obligation_index gate = 1
obligation_index evidence = 2
obligation_index assurance = 3
obligation_index affected_area = 4
obligation_index dependency = 5

pub obligation_kind_eq_iff :
    (a b : ObligationKind) → (eqb (obligation_index a) (obligation_index b) ≡ true) ↔ (a ≡ b)
obligation_kind_eq_iff a b = ground arith

instance abbrev pub obligation_kind_eq : Eq ObligationKind
obligation_kind_eq = record {
  beq = λ a b. eqb (obligation_index a) (obligation_index b);
  beq_iff = obligation_kind_eq_iff;
}

pub record SpecialistObligation : Type 0 where
  pub obligation_id : String
  pub kind : ObligationKind
  pub domain_id : Option String
  pub gate_id : Option String
  pub evidence_id : Option String
  pub affected_area_id : Option String  -- `affectedArea`
  pub specialist_id : Option String

pub record ObligationCoverage : Type 0 where
  pub obligation_id : String
  pub gate_id : Option String
  pub evidence_id : Option String
  pub specialist_id : String
  pub reason_code : String
  pub coverage_kind : ObligationKind

pub record UnmetObligation : Type 0 where
  pub obligation_id : String
  pub gate_id : Option String
  pub evidence_id : Option String
  pub specialist_id : Option String
  pub reason_code : String
  pub coverage_kind : ObligationKind

pub record SpecialistSelection : Type 0 where
  pub specialist_id : String
  pub role : String
  pub required : Bool
  pub reason_codes : List String
  pub covers_domains : List String
  pub covers_gates : List String

pub record SelectionPlan : Type 0 where
  pub selection_plan_id : String
  pub project_id : String
  pub work_order_id : String
  pub selected : List SpecialistSelection
  pub assurance : List SpecialistSelection
  pub unmet_coverage : List String
  pub required_obligations : List SpecialistObligation
  pub covered_obligations : List ObligationCoverage
  pub unmet_obligations : List UnmetObligation
  pub is_selected : Bool  -- `status === "SELECTED"`
  pub blocked_reason_codes : List String
  pub selection_digest : String

pub data AssuranceMode : Type 0 where
  status submission finalize : AssuranceMode

pub record AssurancePolicyInput : Type 0 where
  pub mode : AssuranceMode
  pub project_id : String
  pub work_order : WorkOrder
  pub run : ExecutionRun
  pub gate_states : List GateStateSnapshot
  pub evidence : List EvidenceRecord
  pub reviews : List ReviewRecord
  pub candidate : Option ReviewRecord
  pub specialist_selection_plan : Option SelectionPlan

-- The counts of the findings of the current reviews.
pub record FindingCounts : Type 0 where
  pub low : ℕ
  pub medium : ℕ
  pub high : ℕ
  pub critical : ℕ

pub record AssurancePolicyResult : Type 0 where
  pub allowed : Bool
  pub reason_codes : List String
  pub blockers : List String
  pub required_roles : List String
  pub satisfied_roles : List String
  pub pending_roles : List String
  pub blocked_roles : List String
  pub current_evidence_refs : List String
  pub current_finding_counts : FindingCounts

-- What the policy uses of the runtime: the order of `localeCompare`, and the digest of a plan's
-- text, which is SHA-256 of its JSON without the digest itself.
pub record PolicyEnv : Type 0 where
  pub locale_compare : String → String → ℤ
  pub plan_digest : SelectionPlan → String
