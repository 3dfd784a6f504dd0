-- ===== src/Gates/Records.antt =====
-- The records of src/kernel/execution-types.ts that gate states are derived from. A field that may
-- be missing or null is an `Option`; a field of the schema's own name and version is left out.
use Prim.Native.String.{String}
use uads.Common.{ℕ, Bool, true, false, List, Option, eqb, Eq, arith, ◌≡◌, ◌↔◌}
use uads.Common.Int.{ℤ}
use uads.Gates.Registry.{EvidenceKind}

pub data GateRuntimeStatus : Type 0 where
  pending pass fail blocked : GateRuntimeStatus

pub data EvidenceRuntimeStatus : Type 0 where
  evidence_pass evidence_fail evidence_blocked : EvidenceRuntimeStatus

pub data EvidenceSource : Type 0 where
  executed cache_reuse : EvidenceSource

pub data ReviewVerdict : Type 0 where
  approved correction_needed review_blocked : ReviewVerdict

pub data Severity : Type 0 where
  low medium high critical : Severity

abbrev pub evidence_status_index : EvidenceRuntimeStatus → ℕ
evidence_status_index evidence_pass = 0
evidence_status_index evidence_fail = 1
evidence_status_index evidence_blocked = 2

abbrev pub verdict_index : ReviewVerdict → ℕ
verdict_index approved = 0
verdict_index correction_needed = 1
verdict_index review_blocked = 2

pub evidence_status_eq_iff :
    (a b : EvidenceRuntimeStatus)
    → (eqb (evidence_status_index a) (evidence_status_index b) ≡ true) ↔ (a ≡ b)
evidence_status_eq_iff a b = ground arith

instance abbrev pub evidence_status_eq : Eq EvidenceRuntimeStatus
evidence_status_eq = record {
  beq = λ a b. eqb (evidence_status_index a) (evidence_status_index b);
  beq_iff = evidence_status_eq_iff;
}

pub verdict_eq_iff :
    (a b : ReviewVerdict) → (eqb (verdict_index a) (verdict_index b) ≡ true) ↔ (a ≡ b)
verdict_eq_iff a b = ground arith

instance abbrev pub verdict_eq : Eq ReviewVerdict
verdict_eq = record {
  beq = λ a b. eqb (verdict_index a) (verdict_index b);
  beq_iff = verdict_eq_iff;
}

-- `severity === "CRITICAL" || severity === "HIGH"`
abbrev pub is_severe : Severity → Bool
is_severe low = false
is_severe medium = false
is_severe high = true
is_severe critical = true

pub record EvidenceRecord : Type 0 where
  pub evidence_id : String
  pub project_id : String
  pub work_order_id : String
  pub execution_run_id : String
  pub change_digest : String
  pub gate_id : String
  pub source_role : String
  pub kind : EvidenceKind
  pub created_at : String
  pub status : EvidenceRuntimeStatus
  pub summary : String
  pub command : Option String
  pub exit_code : Option ℤ
  pub output_ref : Option String
  pub output_digest : Option String
  pub file_ref : Option String
  pub file_digest : Option String
  pub source : Option EvidenceSource
  pub source_cache_record_id : Option String
  pub source_evidence_id : Option String
  pub cache_decision_id : Option String
  pub reuse_proof_digest : Option String
  pub gate_reuse_contract_identity : Option String

pub record ReviewFinding : Type 0 where
  pub severity : Severity
  pub category : String
  pub message : String

pub record ReviewRecord : Type 0 where
  pub review_id : String
  pub project_id : String
  pub work_order_id : String
  pub execution_run_id : String
  pub change_digest : String
  pub reviewer_role : String
  pub review_session_id : String
  pub implementer_role : String
  pub implementer_session_id : String
  pub verdict : ReviewVerdict
  pub summary : String
  pub findings : List ReviewFinding
  pub reason_codes : Option (List String)
  pub evidence_refs : List String
  pub created_at : String

pub record GateStateSnapshot : Type 0 where
  pub gate_id : String
  pub status : GateRuntimeStatus
  pub evidence_id : Option String
