-- ===== src/Execution/Tests.antt =====
-- The commands on the files of one run, and their theorems at them.
use Prim.Native.String.{String}
use uads.Assurance.Samples.{order}
use uads.Common.{
  false, All, true, ◌==◌, ◌≢◌, sym, ◌∙◌, List, [], ◌∷◌, none, some, string_eq, ◌≡◌, ◌⊎◌, refl,
}
use uads.Kernel.Execution.{ExecutionPhase, ExecutionRun, ExecutionStatus, execution_status_eq}
use uads.Gates.Registry.{GateDef}
use uads.Gates.Records.{EvidenceRecord, ReviewRecord, EvidenceRuntimeStatus}
use uads.Execution.Store.{World, returned, thrown, execution_blocked}
use uads.Execution.Run.{Active}
use uads.Execution.Record.{Recorded}
use uads.Execution.Reviewer.{Reviewed}
use uads.Execution.Lifecycle.{Trace, done, stage_at}
use uads.Execution.Steps.{IsFiled}
use uads.Execution.Refinement.{
  Command, finalize, kinds_of, record_evidence, record_review, start_assurance, store_after_refines,
  verify,
}
use uads.Execution.Completed.{IsFinalized, run_finalize-IsFinalized}
use uads.Execution.Hindrances.{Hindrance}
use uads.Execution.Refused.{run_finalize_refused}
use uads.Execution.Distinct.{IsDistinct, run_assurance_record-IsDistinct}
use uads.Execution.Proven.{run_evidence_record-satisfies}
use uads.Assurance.Samples.{passed, run}
use uads.Execution.Samples.{
  checkpoint, plan, evidence_input, correction_input, review_input, same_text, store, store-IsFiled,
  world, world_at, unreviewed,
}
use uads.Common.Lists.{any, every, filter, flat_map}
use uads.Common.Equality.{contains, dedupe_from}
use uads.Common.Sort.{insert_by, sort_from}
use uads.Common.Find.{find, reverse_onto}
use uads.Common.Nullable.{same_list}
use uads.Kernel.Ids.{unique, includes_any}
use uads.Gates.Registry.{
  find_gate, gate_def, gate_evidence, review_gate_role, is_review_gate, is_known_gate_id,
}
use uads.Gates.Evidence.{
  has_reuse_links, is_command_proof, is_file_proof, is_invariant_proof, evidence_satisfies_gate,
}
use uads.Gates.States.{
  is_current_review, is_tainted_approval, review_status, review_gate_state, is_current_evidence,
  is_passing, evidence_gate_state, derive_gate_state, derive_gate_states,
}
use uads.Assurance.Roles.{
  is_recognized_assurance_role, assurance_role_to_gates, assurance_role_gate_mapping,
}
use uads.Assurance.Selection.{
  typed_role_obligations, has_relevant_evidence, review_references_are_current,
  is_role_gate_sufficient, role_gate_is_sufficient,
}
use uads.Assurance.Binding.{
  evidence_ref, review_identity_matches, evidence_identity_matches, current_evidence,
  current_reviews, are_obligations_sound, is_plan_bound, has_obligations_of, is_plan_covered,
  typed_plan_digest_is_valid, typed_selection_plan_is_valid,
}
use uads.Assurance.Reviews.{
  approvals_of, role_of_session, is_session_reused, remember, own_objections, approval_objections,
  review_objections, loop_objections, loop_seen,
}
use uads.Assurance.Policy.{
  gate_objections, evidence_objections, count_findings, review_finding_counts, sorted_unique,
  same_set, required_roles_of, run_objections, approvals_in, satisfied_roles_of, pending_roles_of,
  blocked_roles_of, finalize_objections, mode_objections, objections_of, evaluate_assurance_policy,
}
use uads.Cost.Ledger.{
  empty_cost_ledger, read_cost_ledger, load_ledger, patch_ledger, persist_cost_ledger,
  apply_ledger_patch, count_patch, increment_cost_counters, sanitize_ledger,
}
use uads.Cost.Budget.{
  evaluate_token_budget, cost_decision, write_decision, budget_patch, budget_status_of,
  budget_decision, enforce_token_budget, note_governor_event, sanitize_decision,
}
use uads.Execution.Store.{◌>>=◌}
use uads.Execution.Sanitize.{
  sanitize_run, sanitize_packet, sanitize_evidence, sanitize_review, sanitize_review_packet,
}
use uads.Execution.SanitizePlan.{
  sanitize_checkpoint, sanitize_work_order, sanitize_routing, sanitize_context_plan,
}
use uads.Execution.Persist.{
  persist_execution_packet, persist_execution_run, persist_evidence_record, persist_review_record,
  persist_review_packet, list_evidence_records, list_review_records, current_run, persist_plan,
  write_checkpoint,
}
use uads.Execution.Run.{
  requires_implementation, build_packet, assert_active_execution_consistency, with_packet,
  load_artifacts, load_active, gate_states_of,
}
use uads.Execution.Verify.{
  can_verify, join_comma, unchanged_run, violating_run, verified_run, reusing_run, reuse_evidence,
  refuse_unchanged, refuse_violations, verify_changes, run_verify,
}
use uads.Execution.Record.{
  evidence_id_for, evidence_record_of, recorded_run, prove_evidence, prepare_evidence,
  file_evidence, run_evidence_record,
}
use uads.Execution.Contract.{assert_recordable_gate, assert_pass_contract, recorded_status}
use uads.Execution.Assure.{
  assert_current_selection, review_packet_of, reviewing_run, run_assurance_start,
}
use uads.Execution.Review.{reviewed_run, compose_review, prepare_review, run_assurance_record}
use uads.Execution.Reviewer.{
  review_id_for, current_evidence_refs, review_record_of, distinct_reviewer, assert_reviewer,
}
use uads.Execution.Finalize.{
  gate_blockers, independent_blockers, role_blockers, run_blockers, finalize_blockers,
  completed_run, complete, run_finalize,
}
use uads.Execution.Expand.{expanded_run, run_context_expand}
use uads.Execution.Refinement.{perform, store_after}

-- An edit, its verification, its gate and its review, with a finalization between that is refused.
abbrev commands : List (World × Command)
commands =
    (world_at "edited", verify)
    ∷ (world_at "edited", finalize)
    ∷ (world_at "edited", record_evidence evidence_input)
    ∷ (world_at "edited", start_assurance)
    ∷ (world_at "edited", record_review review_input)
    ∷ (world_at "edited", finalize)
    ∷ []

same_redaction : All (λ c. c.0.redact ≡ same_text) commands
same_redaction = (refl, (refl, (refl, (refl, (refl, (refl, tt))))))

abbrev finished_run : ExecutionRun
finished_run = completed_run world run (passed ∷ [])

abbrev review_kept : ReviewRecord
review_kept = review_record_of world run review_input "s1" [] (passed ∷ [])

abbrev reviewed : Reviewed
reviewed = record { record_kept = review_kept; run = reviewed_run world run review_kept }

abbrev evidence_kept : EvidenceRecord
evidence_kept = evidence_record_of world run evidence_input (some "out.txt", some "d") (none, none)

abbrev recorded : Recorded
recorded =
    let gates = gate_states_of world run (passed ∷ evidence_kept ∷ []) [] in
    record {
      record_kept = evidence_kept;
      run = recorded_run world run evidence_kept gates;
      gate_states = gates;
    }

-- An approval, and then a correction that the same role asks of the same digest.
abbrev contradicted : List (World × Command)
contradicted =
    (world, record_review correction_input)
    ∷ (world, verify)
    ∷ (world, start_assurance)
    ∷ (world, finalize)
    ∷ []

abbrev active_found : Active
active_found = record {
  checkpoint = checkpoint;
  work_order = order;
  context_plan = plan;
  run = run;
}

-- What the commands do here: the whole life of the edit ends completed, as does a finalization of
-- the reviewed run; a review and a record of evidence are taken; and the digest that its reviewer
-- wants corrected is verified again unchanged and completed.
runs :
    (stage_at ((store_after commands store).runs "r") ≡ done)
    × ((run_finalize world store).0 ≡ returned finished_run)
    × ((run_assurance_record world review_input unreviewed).0 ≡ returned reviewed)
    × ((run_evidence_record world evidence_input unreviewed).0 ≡ returned recorded)
    × (recorded.record_kept.status ≡ EvidenceRuntimeStatus.evidence_pass)
    × (stage_at ((store_after contradicted store).runs "r") ≡ done)
    × ((load_active (world_at "edited") store).0 ≡ returned active_found)
unfolding any every filter flat_map contains dedupe_from insert_by sort_from find reverse_onto
    same_list unique includes_any find_gate gate_def gate_evidence review_gate_role is_review_gate
    is_known_gate_id has_reuse_links is_command_proof is_file_proof is_invariant_proof
    evidence_satisfies_gate is_current_review is_tainted_approval review_status review_gate_state
    is_current_evidence is_passing evidence_gate_state derive_gate_state derive_gate_states
    is_recognized_assurance_role assurance_role_to_gates assurance_role_gate_mapping evidence_ref
    review_identity_matches evidence_identity_matches current_evidence current_reviews
    are_obligations_sound is_plan_bound has_obligations_of is_plan_covered
    typed_plan_digest_is_valid typed_selection_plan_is_valid typed_role_obligations
    has_relevant_evidence review_references_are_current is_role_gate_sufficient
    role_gate_is_sufficient approvals_of role_of_session is_session_reused remember own_objections
    approval_objections review_objections loop_objections loop_seen gate_objections
    evidence_objections count_findings review_finding_counts sorted_unique same_set
    required_roles_of run_objections approvals_in satisfied_roles_of pending_roles_of
    blocked_roles_of finalize_objections mode_objections objections_of evaluate_assurance_policy
    empty_cost_ledger read_cost_ledger load_ledger patch_ledger persist_cost_ledger sanitize_ledger
    sanitize_decision apply_ledger_patch count_patch increment_cost_counters evaluate_token_budget
    cost_decision write_decision budget_patch budget_status_of budget_decision enforce_token_budget
    note_governor_event ◌>>=◌ sanitize_run sanitize_packet sanitize_evidence sanitize_review
    sanitize_review_packet sanitize_checkpoint sanitize_work_order sanitize_routing
    sanitize_context_plan persist_execution_packet persist_execution_run persist_evidence_record
    persist_review_record persist_review_packet list_evidence_records list_review_records
    current_run persist_plan write_checkpoint requires_implementation build_packet
    assert_active_execution_consistency with_packet load_artifacts load_active gate_states_of
    can_verify join_comma unchanged_run violating_run verified_run reusing_run reuse_evidence
    refuse_unchanged refuse_violations verify_changes run_verify assert_recordable_gate
    assert_pass_contract recorded_status evidence_id_for evidence_record_of recorded_run
    prove_evidence prepare_evidence file_evidence run_evidence_record assert_current_selection
    review_packet_of reviewing_run run_assurance_start review_id_for current_evidence_refs
    review_record_of distinct_reviewer assert_reviewer reviewed_run compose_review prepare_review
    run_assurance_record gate_blockers independent_blockers role_blockers run_blockers
    finalize_blockers completed_run complete run_finalize expanded_run run_context_expand perform
    store_after
runs = (refl, refl, refl, refl, refl, refl, refl)

store_after_refines_example :
    IsFiled same_text (store_after commands store).runs
    × ((id : String)
        → Trace
            (kinds_of commands)
            (stage_at (store.runs id))
            (stage_at ((store_after commands store).runs id)))
store_after_refines_example =
    store_after_refines same_text commands store same_redaction store-IsFiled

run_finalize-IsFinalized_example :
    (active : Active) × ((load_active world store).0 ≡ returned active)
    × ((finished_run ≡ active.run) × (active.run.status ≡ ExecutionStatus.completed)
        ⊎ IsFinalized world active store finished_run)
run_finalize-IsFinalized_example = run_finalize-IsFinalized world store finished_run runs.1

run_assurance_record-IsDistinct_example :
    (active : Active) × ((load_active world unreviewed).0 ≡ returned active)
    × (active.run.phase ≡ ExecutionPhase.review)
    × IsDistinct active.run reviewed.record_kept
    × (reviewed.run ≡ reviewed_run world active.run reviewed.record_kept)
run_assurance_record-IsDistinct_example =
    run_assurance_record-IsDistinct world review_input unreviewed reviewed runs.2

run_evidence_record-satisfies_example :
    (active : Active) × (def : GateDef) × ((load_active world unreviewed).0 ≡ returned active)
    × (gate_def (world.redact evidence_input.gate_id) ≡ some def)
    × (contains active.run.selected_gates (world.redact evidence_input.gate_id) ≡ true)
    × (evidence_satisfies_gate recorded.record_kept def ≡ true)
run_evidence_record-satisfies_example =
    run_evidence_record-satisfies world evidence_input unreviewed recorded (λ text h. h) refl runs.3
      runs.4

different_text : (a b : String) → (a == b) ≡ false → a ≢ b
different_text a b h same =
    let yes_same : (a == b) ≡ true = (string_eq.beq_iff a b).1 same in
    let no : false ≡ true = sym h ∙ yes_same in cc no

in_progress_still : active_found.run.status ≢ ExecutionStatus.completed
in_progress_still h =
    let no : false ≡ true =
      (execution_status_eq.beq_iff active_found.run.status ExecutionStatus.completed).1 h in
    cc no

abbrev verified_digest : String
verified_digest = "now"

abbrev edited_digest : String
edited_digest = "edited"

abbrev no_text : String
no_text = ""

filled_digest : verified_digest ≢ no_text
filled_digest = different_text verified_digest no_text refl

digest_moved : edited_digest ≢ verified_digest
digest_moved = different_text edited_digest verified_digest refl

-- The work tree has another digest than the one verified.
run_finalize_refused_example :
    (texts : List String) × (run_finalize (world_at "edited") store
      ≡ (thrown (execution_blocked "finalize refused" texts), store))
    × (contains texts "current git digest differs from verified digest" ≡ true)
run_finalize_refused_example =
    run_finalize_refused (world_at "edited") store active_found
      "current git digest differs from verified digest" runs.6 in_progress_still
      (Hindrance.moved verified_digest refl filled_digest digest_moved)
