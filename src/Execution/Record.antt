-- ===== src/Execution/Record.antt =====
-- `runEvidenceRecord` of src/kernel/execution.ts. The cache is filled from a PASS on best effort and
-- no command reads it through this store, so that step is left out.
use Prim.Native.String.{String}
use uads.Common.{
  Bool, true, false, not, ◌&&◌, List, [], ◌∷◌, ◌++◌, Option, none, some, map, filter, ◌==◌,
  string_eq, if◌then◌else◌, ◌&◌,
}
use uads.Common.Nullable.{has_text, or_text, starts_with}
use uads.Kernel.Execution.{
  ExecutionPhase, ExecutionRun, ExecutionStatus, execution_phase_eq, execution_status_eq,
}
use uads.Kernel.Ids.{unique}
use uads.Gates.Registry.{EvidenceKind, kind_eq}
use uads.Gates.Records.{
  EvidenceRecord, EvidenceRuntimeStatus, EvidenceSource, GateRuntimeStatus, GateStateSnapshot,
  evidence_status_eq,
}
use uads.Gates.Evidence.{is_exit_zero}
use uads.Assurance.Binding.{evidence_ref, is_nil}
use uads.Cost.Types.{GovernorOutcome, no_patch}
use uads.Cost.Budget.{note_governor_event}
use uads.Execution.Store.{
  Action, Result, World, ◌>>=◌, ◌>>◌, execution_blocked, governor, pure, raise, raise_if, returned,
  thrown, when,
}
use uads.Execution.Persist.{
  list_evidence_records, list_review_records, persist_evidence_record, persist_execution_run,
  write_checkpoint,
}
use uads.Execution.Run.{Active, gate_states_of, load_active}
use uads.Execution.Verify.{phase_text}
use uads.Execution.Contract.{
  EvidenceInput, Proof, assert_recordable_gate, assert_pass_contract, is_status, recorded_status,
}

abbrev is_missing {ℓ} : {A : Type ℓ} → Option A → Bool
is_missing none = true
is_missing (some a) = false

abbrev both_or_none : String × String → Option String × Option String
both_or_none (a, b) = (some a, some b)

abbrev pub lift_proof : Result (String × String) → Action (Option String × Option String)
lift_proof (returned p) = pure (both_or_none p)
lift_proof (thrown e) = raise e

-- A missing or empty path needs no proof.
abbrev pub proof_of :
    (String → Result (String × String)) → Option String → Action (Option String × Option String)
proof_of prove none = pure (none, none)
proof_of prove (some path) = if path == "" then pure (none, none) else lift_proof (prove path)

abbrev is_failed_gate : GateStateSnapshot → Bool
is_failed_gate s = elim s.status [
  | GateRuntimeStatus.fail ↦ true
  | GateRuntimeStatus.blocked ↦ true
  | GateRuntimeStatus.pass ↦ false
  | GateRuntimeStatus.pending ↦ false
]

abbrev pub failed_gates : List GateStateSnapshot → List String
failed_gates gates = map (λ (s : GateStateSnapshot). s.gate_id) (filter is_failed_gate gates)

pub record Recorded : Type 0 where
  pub record_kept : EvidenceRecord  -- `record`
  pub run : ExecutionRun
  pub gate_states : List GateStateSnapshot

module _ (world : World) where
  abbrev pub kept_command : Option String → Option String
  kept_command none = none
  kept_command (some c) = if c == "" then none else some (world.redact c)

  unfoldable pub evidence_id_for : ExecutionRun → EvidenceInput → String
  evidence_id_for run input =
      "ev_"
      & world.digest (
          run.execution_run_id
          & ":"
          & input.gate_id
          & ":"
          & or_text run.current_change_digest ""
          & ":"
          & world.now)

  unfoldable pub evidence_record_of :
      ExecutionRun
      → EvidenceInput
      → Option String × Option String
      → Option String × Option String
      → EvidenceRecord
  evidence_record_of run input copied file = record {
    evidence_id = evidence_id_for run input;
    project_id = run.project_id;
    work_order_id = run.work_order_id;
    execution_run_id = run.execution_run_id;
    change_digest = or_text run.current_change_digest "";
    gate_id = world.redact input.gate_id;
    source_role = world.redact input.role;
    kind = input.kind;
    created_at = world.now;
    status = recorded_status input;
    summary = world.redact input.summary;
    command = kept_command input.command;
    exit_code = if input.kind == EvidenceKind.command then input.exit_code else none;
    output_ref = copied.0;
    output_digest = copied.1;
    file_ref = file.0;
    file_digest = file.1;
    source = some EvidenceSource.executed;
    source_cache_record_id = none;
    source_evidence_id = none;
    cache_decision_id = none;
    reuse_proof_digest = none;
    gate_reuse_contract_identity = none;
  }

  abbrev pub proof_for :
      EvidenceInput → Option String × Option String → Option String × Option String → Proof
  proof_for input copied file = record {
    kind = input.kind;
    command = input.command;
    exit_code = input.exit_code;
    output_ref = copied.0;
    output_digest = copied.1;
    file_ref = file.0;
    file_digest = file.1;
  }

  abbrev is_gate_failure : String → Bool
  is_gate_failure text = starts_with text "gate-fail:"

  -- The run after a record: its blockers of failed gates are those of the gates as they are now.
  unfoldable pub recorded_run :
      ExecutionRun → EvidenceRecord → List GateStateSnapshot → ExecutionRun
  recorded_run run r gates =
      let others = filter (λ b. not (is_gate_failure b)) run.blockers in
      let failed = failed_gates gates in
      record run {
        evidence_refs = unique (run.evidence_refs ++ (evidence_ref run r ∷ []));
        blockers =
            if is_nil failed
            then others
            else unique (others ++ map (λ id. "gate-fail: " & id) failed);
        next_action =
            if is_nil failed
            then run.next_action
            else "Selected gate evidence FAIL/BLOCKED. Fix implementation, re-verify, and record new evidence.";
        updated_at = world.now;
      }

  abbrev pub is_closed_for_evidence : ExecutionRun → Bool
  is_closed_for_evidence run =
      not (run.phase == ExecutionPhase.verify)
      && (not (run.phase == ExecutionPhase.review)
          && not (run.status == ExecutionStatus.correction_needed))

  -- The checks of the gate and of what the record claims to prove, and the record.
  unfoldable pub prove_evidence : ExecutionRun → EvidenceInput → Action EvidenceRecord
  prove_evidence run input = do
    def ← assert_recordable_gate run (world.redact input.gate_id)
    raise_if ((input.kind == EvidenceKind.command) && is_missing input.exit_code)
        (execution_blocked "command evidence requires --exit-code" ("missing exit code" ∷ []))
    raise_if
        ((input.kind == EvidenceKind.command)
          && (is_status EvidenceRuntimeStatus.evidence_pass input.status
              && not (is_exit_zero input.exit_code)))
        (execution_blocked "PASS command evidence is incompatible with a non-zero exit code"
          ("status/exit-code mismatch" ∷ []))
    copied ← proof_of (world.copy_output run (evidence_id_for run input)) input.output_path
    file ← proof_of world.hash_file input.file
    when (recorded_status input == EvidenceRuntimeStatus.evidence_pass)
        (assert_pass_contract def (proof_for input copied file))
    pure (evidence_record_of run input copied file)

  -- The checks of the run before these.
  unfoldable pub prepare_evidence : ExecutionRun → EvidenceInput → Action EvidenceRecord
  prepare_evidence run input = do
    raise_if (not (has_text run.current_change_digest))
        (execution_blocked "cannot record evidence before verify" ("missing change digest" ∷ []))
    raise_if (is_closed_for_evidence run) (
        execution_blocked "evidence recording requires an active verified run"
          (("phase is " & phase_text run.phase) ∷ []))
    prove_evidence run input

  -- The record is written and counted, and the run with its gates follows it.
  unfoldable pub file_evidence : Active → EvidenceInput → EvidenceRecord → Action Recorded
  file_evidence active input r = do
    let run = active.run
    persist_evidence_record world r
    governor (λ costs.
        note_governor_event world.costs costs world.project_id (some run.work_order_id)
          (some run.execution_run_id) GovernorOutcome.allow
          (if recorded_status input == EvidenceRuntimeStatus.evidence_pass
            then "GATE_EXECUTED" ∷ []
            else "GATE_EXECUTED_NON_PASS" ∷ [])
          ("evidence-record:" & world.redact input.gate_id)
          (some (record no_patch { gate_executions = some 1; tool_executions = some 1 })))
    evidence ← list_evidence_records world run.execution_run_id
    reviews ← list_review_records world run.execution_run_id
    let gates = gate_states_of world run evidence reviews
    let updated = recorded_run run r gates
    persist_execution_run world updated none
    write_checkpoint world
        (record active.checkpoint {
          updated_at = world.now;
          evidence_refs = unique (active.checkpoint.evidence_refs ++ updated.evidence_refs);
          next_action = updated.next_action;
        })
        active.work_order active.context_plan
    pure (record { record_kept = r; run = updated; gate_states = gates })

  unfoldable pub run_evidence_record : EvidenceInput → Action Recorded
  run_evidence_record input = do
    active ← load_active world
    r ← prepare_evidence active.run input
    file_evidence active input r
