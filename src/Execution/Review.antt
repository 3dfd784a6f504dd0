-- ===== src/Execution/Review.antt =====
-- `runAssuranceRecord` of src/kernel/execution.ts.
use Prim.Native.String.{String}
use Prim.Native.Nat.{suc}
use uads.Common.{not, [], ◌∷◌, ◌++◌, none, some, ◌==◌, string_eq, if◌then◌else◌, ◌&◌}
use uads.Kernel.Types.{CheckpointStatus, Phase}
use uads.Kernel.Execution.{
  ExecutionPhase, ExecutionRun, ExecutionStatus, execution_phase_eq, execution_status_eq,
}
use uads.Kernel.Ids.{unique}
use uads.Gates.Records.{ReviewRecord, ReviewVerdict, verdict_eq}
use uads.Assurance.Types.{AssuranceMode}
use uads.Assurance.Policy.{evaluate_assurance_policy}
use uads.Execution.Store.{Action, World, ◌>>=◌, ◌>>◌, execution_blocked, pure, raise_if}
use uads.Execution.Persist.{
  list_evidence_records, list_review_records, persist_execution_run, persist_review_record,
  write_checkpoint,
}
use uads.Execution.Run.{Active, build_packet, gate_states_of, load_active}
use uads.Execution.Verify.{phase_text}
use uads.Execution.Assure.{assert_current_selection, policy_env, policy_input}
use uads.Execution.Reviewer.{parsed, review_record_of, assert_reviewer, ReviewInput, Reviewed}

module _ (world : World) where
  -- The run with the reference to its review.
  abbrev pub with_review : ExecutionRun → ReviewRecord → ExecutionRun
  with_review run r = record run {
    review_refs = unique (
        run.review_refs
        ++ (("sidecar://execution-runs/" & run.execution_run_id & "/reviews/" & r.review_id
              & ".json")
            ∷ []));
    updated_at = world.now;
  }

  abbrev pub run_on_verdict : ReviewVerdict → ExecutionRun → String → ExecutionRun
  run_on_verdict ReviewVerdict.correction_needed run role = record run {
    phase = ExecutionPhase.implement;
    status = ExecutionStatus.correction_needed;
    attempt = suc run.attempt;
    reviewed_change_digest = none;
    next_action =
        "Address review findings, edit in-scope files, then uads verify (new digest required).";
  }
  run_on_verdict ReviewVerdict.review_blocked run role = record run {
    status = ExecutionStatus.blocked;
    phase = ExecutionPhase.stopped;
    blockers = unique (run.blockers ++ (("review-blocked:" & role) ∷ []));
    next_action = "Independent review BLOCKED. Do not continue automatically.";
  }
  run_on_verdict ReviewVerdict.approved run role = record run {
    reviewed_change_digest = run.current_change_digest;
    next_action = "If all required reviewers approved this digest, run uads finalize.";
  }

  unfoldable pub reviewed_run : ExecutionRun → ReviewRecord → ExecutionRun
  reviewed_run run r = run_on_verdict r.verdict (with_review run r) r.reviewer_role

  abbrev phase_after : ExecutionPhase → Phase
  phase_after ExecutionPhase.implement = Phase.implement
  phase_after ExecutionPhase.stopped = Phase.stopped
  phase_after ExecutionPhase.verify = Phase.review
  phase_after ExecutionPhase.review = Phase.review

  -- The record, once the policy has agreed to its submission.
  unfoldable pub compose_review : Active → ReviewInput → String → Action ReviewRecord
  compose_review active input bound = do
    let run = active.run
    evidence ← list_evidence_records world run.execution_run_id
    reviews ← list_review_records world run.execution_run_id
    selection ← assert_current_selection world active.work_order active.context_plan
    let gates = gate_states_of world run evidence reviews
    findings ← parsed input.findings
    let r = review_record_of world run input bound findings evidence
    let verdict = evaluate_assurance_policy (policy_env world) (
        policy_input world AssuranceMode.submission active.work_order run gates evidence reviews
          (some r) (some selection))
    raise_if (not verdict.allowed)
        (execution_blocked "assurance record rejected by deterministic policy" verdict.blockers)
    pure r

  unfoldable pub prepare_review : Active → ReviewInput → Action ReviewRecord
  prepare_review active input = do
    raise_if (not (active.run.phase == ExecutionPhase.review)) (
        execution_blocked "assurance record requires review phase after uads assurance start"
          (("phase is " & phase_text active.run.phase) ∷ []))
    bound ← assert_reviewer world active.work_order active.run input
    compose_review active input bound

  unfoldable pub run_assurance_record : ReviewInput → Action Reviewed
  run_assurance_record input = do
    active ← load_active world
    let run = active.run
    r ← prepare_review active input
    persist_review_record world r
    let updated = reviewed_run run r
    persist_execution_run world updated (some (build_packet updated active.work_order))
    write_checkpoint world
        (record active.checkpoint {
          updated_at = world.now;
          phase = phase_after updated.phase;
          status =
              if updated.status == ExecutionStatus.blocked
              then CheckpointStatus.blocked
              else CheckpointStatus.in_progress;
          blockers = updated.blockers;
          next_action = updated.next_action;
          resume_cursor =
              if updated.status == ExecutionStatus.correction_needed
              then "implement:correction"
              else "review:recorded";
        })
        active.work_order active.context_plan
    pure (record { record_kept = r; run = updated })
