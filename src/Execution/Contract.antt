-- ===== src/Execution/Contract.antt =====
-- What `runEvidenceRecord` of src/kernel/execution.ts is given, and what it asks of a gate and of a
-- PASS: assertRecordableGate and assertPassContract.
use Prim.Native.String.{String}
use uads.Common.{
  Bool, false, not, ◌&&◌, ◌||◌, [], ◌∷◌, Option, none, some, contains, ◌==◌, string_eq,
  if◌then◌else◌, ◌&◌,
}
use uads.Common.Int.{ℤ}
use uads.Common.Nullable.{has_text}
use uads.Kernel.Execution.{ExecutionRun, execution_phase_eq, execution_status_eq}
use uads.Gates.Registry.{EvidenceKind, GateDef, gate_def, is_known_gate_id, is_review_gate, kind_eq}
use uads.Gates.Records.{EvidenceRuntimeStatus, evidence_status_eq}
use uads.Gates.Evidence.{is_command_contract, is_exit_zero}
use uads.Execution.Store.{Action, ◌>>=◌, ◌>>◌, execution_blocked, pure, raise, raise_if}

pub record EvidenceInput : Type 0 where
  pub gate_id : String
  pub kind : EvidenceKind
  pub role : String
  pub command : Option String
  pub exit_code : Option ℤ
  pub output_path : Option String
  pub file : Option String
  pub summary : String
  pub status : Option EvidenceRuntimeStatus

abbrev kind_text : EvidenceKind → String
kind_text EvidenceKind.command = "command"
kind_text EvidenceKind.file = "file"
kind_text EvidenceKind.invariant = "invariant"
kind_text EvidenceKind.review = "review"

-- What a PASS is asked to prove.
pub record Proof : Type 0 where
  pub kind : EvidenceKind
  pub command : Option String
  pub exit_code : Option ℤ
  pub output_ref : Option String
  pub output_digest : Option String
  pub file_ref : Option String
  pub file_digest : Option String

abbrev pub or_unknown : Option GateDef → String → Action GateDef
or_unknown none id =
    raise (execution_blocked "unknown gate cannot be recorded" (("unknown gate " & id) ∷ []))
or_unknown (some g) id = pure g

unfoldable pub assert_recordable_gate : ExecutionRun → String → Action GateDef
assert_recordable_gate run id = do
  raise_if (not (is_known_gate_id id))
      (execution_blocked "unknown gate cannot be recorded" (("unknown gate " & id) ∷ []))
  raise_if (not (contains run.selected_gates id))
      (execution_blocked "unselected gate cannot be recorded" (("unselected gate " & id) ∷ []))
  def ← or_unknown (gate_def id) id
  raise_if (is_review_gate id) (
      execution_blocked "review gates require assurance records, not generic evidence"
        (("review-gate:" & id) ∷ []))
  pure def

unfoldable pub assert_pass_contract : GateDef → Proof → Action (Unit {0})
assert_pass_contract def p = do
  raise_if (not (contains def.allowed_evidence_kinds p.kind)) (
      execution_blocked "evidence kind cannot satisfy the selected gate"
        (("kind " & kind_text p.kind & " not allowed for " & def.id) ∷ []))
  raise_if
      ((is_command_contract def.contract_kind || (p.kind == EvidenceKind.command))
        && (not (p.kind == EvidenceKind.command)
            || (not (has_text p.command)
                || (not (is_exit_zero p.exit_code)
                    || (not (has_text p.output_ref) || not (has_text p.output_digest))))))
      (execution_blocked "command PASS requires command, exit 0, output ref, and output digest"
        (("insufficient command evidence for " & def.id) ∷ []))
  raise_if
      ((p.kind == EvidenceKind.file) && (not (has_text p.file_ref) || not (has_text p.file_digest)))
      (execution_blocked "file evidence requires a relative fileRef and file digest"
        ("missing file digest" ∷ []))
  raise_if
      ((p.kind == EvidenceKind.invariant)
        && not (
            (has_text p.output_ref && has_text p.output_digest)
            || (has_text p.file_ref && has_text p.file_digest)))
      (execution_blocked "invariant PASS requires a concrete output or file digest"
        ("summary-only invariant rejected" ∷ []))

abbrev or_pass : Option EvidenceRuntimeStatus → EvidenceRuntimeStatus
or_pass none = EvidenceRuntimeStatus.evidence_pass
or_pass (some s) = s

abbrev pub is_status : EvidenceRuntimeStatus → Option EvidenceRuntimeStatus → Bool
is_status s none = false
is_status s (some t) = t == s

-- A command's status is its exit code's; BLOCKED is kept where it is asked for.
unfoldable pub recorded_status : EvidenceInput → EvidenceRuntimeStatus
recorded_status input =
    if is_status EvidenceRuntimeStatus.evidence_blocked input.status
    then EvidenceRuntimeStatus.evidence_blocked
    else if input.kind == EvidenceKind.command
    then (if is_exit_zero input.exit_code
        then EvidenceRuntimeStatus.evidence_pass
        else EvidenceRuntimeStatus.evidence_fail)
    else or_pass input.status
