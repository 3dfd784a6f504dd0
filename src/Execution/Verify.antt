-- ===== src/Execution/Verify.antt =====
-- `runVerify` of src/kernel/execution.ts. The snapshot of quality per token that it refreshes at the
-- end is left out: no command reads it.
use Prim.Native.String.{String}
use uads.Common.{
  Bool, true, false, not, ◌&&◌, ◌||◌, List, [], ◌∷◌, ◌++◌, none, some, map, filter, ltb, length,
  ◌==◌, string_eq, if◌then◌else◌, ◌&◌,
}
use uads.Kernel.Types.{Checkpoint, CheckpointStatus, ContextPlan, Phase, WorkOrder}
use uads.Kernel.Execution.{
  ChangeSet, ChangedFile, ExecutionPhase, ExecutionRun, ExecutionStatus, ScopeClassification,
  execution_phase_eq, execution_status_eq,
}
use uads.Kernel.Ids.{unique}
use uads.Gates.Records.{EvidenceRecord, GateRuntimeStatus, GateStateSnapshot}
use uads.Assurance.Binding.{evidence_ref, is_nil}
use uads.Cost.Types.{GovernorOutcome, no_patch}
use uads.Cost.Budget.{note_governor_event}
use uads.Execution.Store.{
  Action, World, ◌>>=◌, ◌>>◌, execution_blocked, governor, pure, raise, raise_if, when,
}
use uads.Execution.Persist.{
  list_evidence_records, list_review_records, persist_evidence_record, persist_execution_run,
  write_checkpoint,
}
use uads.Execution.Run.{Active, build_packet, gate_states_of, load_active, requires_implementation}

abbrev pub classification_text : ScopeClassification → String
classification_text ScopeClassification.in_scope = "in-scope"
classification_text ScopeClassification.supporting = "supporting"
classification_text ScopeClassification.out_of_scope = "out-of-scope"
classification_text ScopeClassification.sensitive = "sensitive"

abbrev pub status_text : ExecutionStatus → String
status_text ExecutionStatus.ready = "ready"
status_text ExecutionStatus.in_progress = "in_progress"
status_text ExecutionStatus.correction_needed = "correction_needed"
status_text ExecutionStatus.blocked = "blocked"
status_text ExecutionStatus.completed = "completed"
status_text ExecutionStatus.failed = "failed"

abbrev pub phase_text : ExecutionPhase → String
phase_text ExecutionPhase.implement = "implement"
phase_text ExecutionPhase.verify = "verify"
phase_text ExecutionPhase.review = "review"
phase_text ExecutionPhase.stopped = "stopped"

unfoldable pub can_verify : ExecutionRun → Bool
can_verify run =
    (run.phase == ExecutionPhase.implement)
    || ((run.phase == ExecutionPhase.verify)
        || ((run.phase == ExecutionPhase.review)
            || (run.status == ExecutionStatus.correction_needed)))

abbrev pub paths_of : List ChangedFile → List String
paths_of files = map (λ (f : ChangedFile). f.path) files

abbrev pub is_pending : GateStateSnapshot → Bool
is_pending s = elim s.status [
  | GateRuntimeStatus.pending ↦ true
  | GateRuntimeStatus.pass ↦ false
  | GateRuntimeStatus.fail ↦ false
  | GateRuntimeStatus.blocked ↦ false
]

abbrev pub no_change : String
no_change = "no implementation change to verify"

abbrev pub violation_text : ChangedFile → String
violation_text f = classification_text f.classification & ": " & f.path

-- `texts.join(", ")`
unfoldable pub join_comma : List String → String
join_comma [] = ""
join_comma (t ∷ []) = t
join_comma (t ∷ ts) = t & ", " & join_comma ts

pub record Verified : Type 0 where
  pub run : ExecutionRun
  pub change_set : ChangeSet
  pub pending_gates : List String

module _ (world : World) where
  -- A run without the change that its work order demands.
  unfoldable pub unchanged_run : ExecutionRun → ExecutionRun
  unchanged_run run = record run {
    status = ExecutionStatus.blocked;
    blockers = unique (run.blockers ++ (no_change ∷ []));
    next_action = "Implement in-scope edits, then re-run uads verify.";
    updated_at = world.now;
  }

  -- A run with changes out of scope.
  unfoldable pub violating_run : ExecutionRun → ChangeSet → ExecutionRun
  violating_run run changes = record run {
    status = ExecutionStatus.blocked;
    phase = ExecutionPhase.stopped;
    current_change_digest = some changes.digest;
    changed_files = paths_of changes.files;
    scope_violations = changes.violations;
    blockers = unique (run.blockers ++ map violation_text changes.violations);
    next_action =
        "Out-of-scope or sensitive changes block verification. Create a new plan or revert the extra files.";
    updated_at = world.now;
  }

  unfoldable pub verified_run : ExecutionRun → ChangeSet → ExecutionRun
  verified_run run changes = record run {
    phase = ExecutionPhase.verify;
    status = ExecutionStatus.in_progress;
    current_change_digest = some changes.digest;
    changed_files = paths_of changes.files;
    scope_violations = [];
    blockers = [];
    reviewed_change_digest =
        if run.phase == ExecutionPhase.review then none else run.reviewed_change_digest;
    next_action = "Record PASS evidence for selected non-review gates, then uads assurance start.";
    updated_at = world.now;
  }

  abbrev pub persist_hits : List EvidenceRecord → Action (Unit {0})
  persist_hits [] = pure tt
  persist_hits (r ∷ rs) = persist_evidence_record world r >> persist_hits rs

  unfoldable pub reusing_run : ExecutionRun → List EvidenceRecord → ExecutionRun
  reusing_run run hits = record run {
    evidence_refs = unique (run.evidence_refs ++ map (evidence_ref run) hits);
    updated_at = world.now;
  }

  -- The evidence that the cache reuses is recorded, and the run refers to it.
  unfoldable pub reuse_evidence : ExecutionRun → List GateStateSnapshot → Action ExecutionRun
  reuse_evidence run gates =
      let hits = world.cache_hits run gates in
      let misses = world.cache_misses run gates in
      let n = length hits in
      let reusing = reusing_run run hits in
      let kept = if is_nil hits then run else reusing in
      persist_hits hits
      >> when (not (is_nil hits)) (
          persist_execution_run world reusing none
          >> governor (λ costs.
            note_governor_event world.costs costs world.project_id (some run.work_order_id)
              (some run.execution_run_id) GovernorOutcome.reuse
              ("CACHE_HIT" ∷ "AVOIDED_ELIGIBLE_GATE_RERUN" ∷ []) "verify-cache-hit"
              (some (record no_patch {
                gate_cache_hits = some n;
                evidence_reuse_count = some n;
                avoided_tool_executions = some n;
              })))
          >> pure tt)
      >> when (ltb 0 misses) (
          governor (λ costs.
            note_governor_event world.costs costs world.project_id (some run.work_order_id)
              (some run.execution_run_id) GovernorOutcome.allow ("CACHE_MISS_OR_STALE" ∷ [])
              "verify-cache-miss" (some (record no_patch { gate_cache_misses = some misses })))
          >> pure tt)
      >> pure kept

  unfoldable pub refuse_unchanged : ExecutionRun → Action (Unit {0})
  refuse_unchanged run =
      persist_execution_run world (unchanged_run run) none
      >> raise (execution_blocked no_change (no_change ∷ []))

  unfoldable pub refuse_violations :
      Checkpoint → WorkOrder → ContextPlan → ExecutionRun → ChangeSet → Action (Unit {0})
  refuse_violations checkpoint order plan run changes =
      let stopped = violating_run run changes in
      persist_execution_run world stopped none
      >> write_checkpoint world
          (record checkpoint {
            updated_at = world.now;
            status = CheckpointStatus.blocked;
            phase = Phase.stopped;
            blockers = stopped.blockers;
            next_action = stopped.next_action;
          })
          order plan
      >> raise (
          execution_blocked
            ("scope or sensitive path violations: "
              & join_comma (
                  map (λ (f : ChangedFile). classification_text f.classification & ":" & f.path)
                    changes.violations))
            stopped.blockers)

  -- What follows once the changes are let through.
  unfoldable pub verify_changes : Active → Action Verified
  verify_changes active = do
    let order = active.work_order
    let changes = world.change_set order active.context_plan
    let updated = verified_run active.run changes
    persist_execution_run world updated (some (build_packet updated order))
    evidence ← list_evidence_records world updated.execution_run_id
    reviews ← list_review_records world updated.execution_run_id
    kept ← reuse_evidence updated (gate_states_of world updated evidence reviews)
    evidence_after ← list_evidence_records world updated.execution_run_id
    write_checkpoint world
        (record active.checkpoint {
          updated_at = world.now;
          phase = Phase.verify;
          status = CheckpointStatus.in_progress;
          completed_steps = unique (active.checkpoint.completed_steps ++ ("verify" ∷ []));
          blockers = [];
          next_action = kept.next_action;
          resume_cursor = "verify:await-evidence";
        })
        order active.context_plan
    pure (record {
      run = kept;
      change_set = changes;
      pending_gates =
          map (λ (s : GateStateSnapshot). s.gate_id)
            (filter is_pending (gate_states_of world kept evidence_after reviews));
    })

  unfoldable pub run_verify : Action Verified
  run_verify = do
    active ← load_active world
    let run = active.run
    let order = active.work_order
    raise_if ((run.status == ExecutionStatus.completed) || (run.status == ExecutionStatus.failed)) (
        execution_blocked "execution run is not active"
          (("status is " & status_text run.status) ∷ []))
    raise_if (not (can_verify run)) (
        execution_blocked "cannot verify before dispatch or after the run has stopped"
          (("phase is " & phase_text run.phase) ∷ []))
    let changes = world.change_set order active.context_plan
    when (requires_implementation order && is_nil changes.files) (refuse_unchanged run)
    when (not (is_nil changes.violations))
        (refuse_violations active.checkpoint order active.context_plan run changes)
    verify_changes active
