-- ===== src/Execution/Finalize.antt =====
-- `runFinalize` of src/kernel/execution.ts: everything that stands against completion is collected
-- before anything is thrown. The failure memory that it marks as resolved afterwards is left out.
use Prim.Native.String.{String}
use uads.Common.{
  Bool, not, ◌&&◌, ◌||◌, List, [], ◌∷◌, ◌++◌, Option, none, some, filter, flat_map, any, contains,
  decimal, length, ltb, ◌==◌, string_eq, if◌then◌else◌, ◌&◌,
}
use uads.Common.Find.{find}
use uads.Common.Nullable.{has_text, same_nullable}
use uads.Kernel.Types.{
  CheckpointStatus, Phase, WorkOrder, WorkOrderStatus, independent_reviewer_role,
}
use uads.Kernel.Execution.{
  ExecutionPhase, ExecutionRun, ExecutionStatus, execution_phase_eq, execution_status_eq,
}
use uads.Kernel.Ids.{unique}
use uads.Gates.Registry.{is_known_gate_id}
use uads.Gates.Records.{
  EvidenceRecord, EvidenceRuntimeStatus, GateRuntimeStatus, GateStateSnapshot, ReviewRecord,
  ReviewVerdict, evidence_status_eq, verdict_eq,
}
use uads.Gates.Evidence.{is_cache_reuse}
use uads.Gates.States.{same_text}
use uads.Assurance.Types.{AssuranceMode, AssurancePolicyResult, SelectionPlan}
use uads.Assurance.Roles.{ReasonCode, code_text}
use uads.Assurance.Binding.{is_nil}
use uads.Assurance.Policy.{evaluate_assurance_policy}
use uads.Execution.Store.{Action, World, ◌>>=◌, ◌>>◌, execution_blocked, pure, raise_if, read}
use uads.Execution.Persist.{
  list_evidence_records, list_review_records, persist_execution_run, write_checkpoint,
}
use uads.Execution.Run.{Active, build_packet, gate_states_of, load_active, requires_implementation}
use uads.Execution.Assure.{policy_env, policy_input}

-- `if (c) blockers.push(text)`
abbrev pub block_if : Bool → String → List String
block_if c text = if c then text ∷ [] else []

abbrev pub is_of_digest : Option String → ReviewRecord → Bool
is_of_digest digest r = same_text r.change_digest digest

abbrev pub is_passing_evidence : Option String → EvidenceRecord → Bool
is_passing_evidence digest r =
    same_text r.change_digest digest && (r.status == EvidenceRuntimeStatus.evidence_pass)

unfoldable pub gate_blockers : List String → GateStateSnapshot → List String
gate_blockers selected s =
    block_if (not (is_known_gate_id s.gate_id) && contains selected s.gate_id)
      ("unknown selected gate " & s.gate_id)
    ++ elim s.status [
      | GateRuntimeStatus.pending ↦ ("pending gate " & s.gate_id) ∷ []
      | GateRuntimeStatus.fail ↦ ("fail gate " & s.gate_id) ∷ []
      | GateRuntimeStatus.blocked ↦ ("blocked gate " & s.gate_id) ∷ []
      | GateRuntimeStatus.pass ↦ []
    ]

-- What stands against the first review of the independent reviewer.
unfoldable pub independent_blockers : ExecutionRun → String → Option ReviewRecord → List String
independent_blockers run live none = "missing independent review" ∷ []
independent_blockers run live (some r) =
    if r.verdict == ReviewVerdict.correction_needed
    then "CORRECTION_NEEDED review is not an approval" ∷ []
    else if not (r.verdict == ReviewVerdict.approved)
    then "independent reviewer has not APPROVED" ∷ []
    else block_if (r.reviewer_role == r.implementer_role) "implementer self-review"
      ++ (block_if (r.review_session_id == r.implementer_session_id)
            "same implementer/reviewer session"
          ++ (block_if
                (has_text run.implementer_session_id
                  && not (same_nullable (some r.implementer_session_id) run.implementer_session_id))
                "review does not carry the authoritative implementer session"
              ++ (block_if
                    (has_text run.reviewed_change_digest
                      && not (same_nullable run.reviewed_change_digest run.current_change_digest))
                    "reviewed digest does not match current digest"
                  ++ block_if (not (live == r.change_digest))
                      "current git digest differs from reviewed digest")))

unfoldable pub role_blockers : List ReviewRecord → String → List String
role_blockers reviews role =
    block_if
      (not (
        any
          (λ (r : ReviewRecord). (r.reviewer_role == role) && (r.verdict == ReviewVerdict.approved))
          reviews))
      ("missing required assurance reviewer " & role)

abbrev pub selection_blockers : Option SelectionPlan → List String
selection_blockers none = code_text ReasonCode.specialist_selection_invalid ∷ []
selection_blockers (some plan) = []

module _ (world : World) where
  -- Before the records are read.
  unfoldable pub run_blockers : WorkOrder → ExecutionRun → String → List String
  run_blockers order run live =
      block_if (not (has_text run.current_change_digest)) "missing change digest"
      ++ (block_if
            ((run.phase == ExecutionPhase.implement)
              || ((run.phase == ExecutionPhase.verify)
                  || (run.status == ExecutionStatus.correction_needed)))
            "cannot finalize before independent review"
          ++ (block_if (requires_implementation order && not (has_text run.implementer_session_id))
                "missing authoritative implementer session"
              ++ (block_if
                    (has_text run.current_change_digest
                      && not (same_text live run.current_change_digest))
                    "current git digest differs from verified digest"
                  ++ block_if (not (is_nil run.scope_violations))
                      "unresolved out-of-scope or sensitive changes")))

  abbrev pub assurance_of :
      WorkOrder
      → ExecutionRun
      → List EvidenceRecord
      → List ReviewRecord
      → Option SelectionPlan
      → AssurancePolicyResult
  assurance_of order run evidence reviews selection = evaluate_assurance_policy (policy_env world) (
      policy_input world AssuranceMode.finalize order run
        (gate_states_of world run evidence reviews) evidence reviews none selection)

  abbrev pub current_of : ExecutionRun → List ReviewRecord → List ReviewRecord
  current_of run reviews = filter (is_of_digest run.current_change_digest) reviews

  abbrev pub independent_of : ExecutionRun → List ReviewRecord → Option ReviewRecord
  independent_of run reviews =
      find (λ (r : ReviewRecord). r.reviewer_role == independent_reviewer_role)
        (current_of run reviews)

  unfoldable pub finalize_blockers :
      WorkOrder
      → ExecutionRun
      → String
      → List EvidenceRecord
      → List ReviewRecord
      → Option SelectionPlan
      → List String
  finalize_blockers order run live evidence reviews selection =
      run_blockers order run live
      ++ (selection_blockers selection
          ++ ((assurance_of order run evidence reviews selection).blockers
              ++ (flat_map (gate_blockers run.selected_gates)
                    (gate_states_of world run evidence reviews)
                  ++ (independent_blockers run live (independent_of run reviews)
                      ++ (flat_map (role_blockers (current_of run reviews)) run.required_reviewers
                          ++ (block_if
                                (not (is_nil order.acceptance_criteria)
                                  && not (
                                      any (is_passing_evidence run.current_change_digest) evidence))
                                "required acceptance evidence missing"
                              ++ (if not (is_nil run.blockers)
                                    && (run.status == ExecutionStatus.blocked)
                                  then run.blockers
                                  else [])))))))

  abbrev is_reused_pass : Option String → EvidenceRecord → Bool
  is_reused_pass digest r = is_cache_reuse r.source && is_passing_evidence digest r

  abbrev is_executed_pass : Option String → EvidenceRecord → Bool
  is_executed_pass digest r = not (is_cache_reuse r.source) && is_passing_evidence digest r

  abbrev next_after : List EvidenceRecord → ExecutionRun → String
  next_after evidence run =
      let reused = length (filter (is_reused_pass run.current_change_digest) evidence) in
      let executed = length (filter (is_executed_pass run.current_change_digest) evidence) in
      if ltb 0 reused
      then "Completed with "
        & decimal executed
        & " executed PASS and "
        & decimal reused
        & " cache-reuse PASS. Generate a review ZIP if required. Do not deploy or transfer funds."
      else "Generate a review ZIP if required. Do not deploy or transfer funds."

  unfoldable pub completed_run : ExecutionRun → List EvidenceRecord → ExecutionRun
  completed_run run evidence = record run {
    phase = ExecutionPhase.stopped;
    status = ExecutionStatus.completed;
    next_action = next_after evidence run;
    updated_at = world.now;
  }

  unfoldable pub complete : Active → List EvidenceRecord → Action ExecutionRun
  complete active evidence = do
    let updated = completed_run active.run evidence
    persist_execution_run world updated (some (build_packet updated active.work_order))
    write_checkpoint world
        (record active.checkpoint {
          updated_at = world.now;
          phase = Phase.stopped;
          status = CheckpointStatus.completed;
          completed_steps = unique (active.checkpoint.completed_steps ++ ("finalize" ∷ []));
          blockers = [];
          next_action = updated.next_action;
          resume_cursor = "complete:await-review-bundle";
        })
        (record active.work_order {
          status = WorkOrderStatus.completed;
          next_action = updated.next_action;
        })
        active.context_plan
    pure updated

  abbrev pub finalize_open : Active → Action ExecutionRun
  finalize_open active = do
    let run = active.run
    let order = active.work_order
    let live = (world.change_set order active.context_plan).digest
    evidence ← list_evidence_records world run.execution_run_id
    reviews ← list_review_records world run.execution_run_id
    routing ← read (λ s. s.routing_decisions order.routing_decision_id)
    let selection = world.bound_selection order routing active.context_plan
    let blockers = finalize_blockers order run live evidence reviews selection
    raise_if (not (is_nil blockers)) (execution_blocked "finalize refused" (unique blockers))
    complete active evidence

  -- A completed run is returned as it is.
  unfoldable pub run_finalize : Action ExecutionRun
  run_finalize = do
    active ← load_active world
    if active.run.status == ExecutionStatus.completed then pure active.run else finalize_open active
