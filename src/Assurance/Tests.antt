-- ===== src/Assurance/Tests.antt =====
-- The policy on a small run, and its theorems at it.
use uads.Common.{All, true, false, [], ◌∷◌, any, every, filter, flat_map, contains, ◌≡◌, refl}
use uads.Common.Sort.{insert_by, sort_from}
use uads.Common.Find.{find, reverse_onto}
use uads.Common.Nullable.{has_text, same_list}
use uads.Common.{dedupe_from}
use uads.Kernel.Ids.{unique}
use uads.Gates.Registry.{find_gate, gate_def, is_known_gate_id, is_review_gate, review_gate_role}
use uads.Gates.Records.{GateRuntimeStatus, ReviewRecord}
use uads.Assurance.Types.{AssurancePolicyInput}
use uads.Assurance.Roles.{assurance_role_to_gates, is_recognized_assurance_role}
use uads.Assurance.Selection.{
  has_relevant_evidence, review_references_are_current, role_gate_is_sufficient,
  typed_role_obligations,
}
use uads.Assurance.Binding.{
  are_obligations_sound, current_evidence, current_reviews, evidence_identity_matches, evidence_ref,
  has_obligations_of, is_plan_bound, is_plan_covered, review_identity_matches,
  typed_plan_digest_is_valid, typed_selection_plan_is_valid,
}
use uads.Assurance.Reviews.{
  approval_objections, approvals_of, is_session_reused, loop_objections, loop_seen, own_objections,
  remember, review_objections, role_of_session,
}
use uads.Assurance.Policy.{
  approvals_in, evaluate_assurance_policy, evidence_objections, finalize_objections,
  gate_objections, mode_objections, objections_of, pending_roles_of, required_roles_of,
  run_objections, same_set, satisfied_roles_of, sorted_unique,
}
use uads.Assurance.Apart.{AllApart}
use uads.Assurance.Finalize.{
  IsApprovedBy, evaluate_assurance_policy-AllApart, evaluate_assurance_policy-finalize,
  evaluate_assurance_policy-run,
}
use uads.Assurance.Samples.{approval, correction, env, input_of}

abbrev approved : AssurancePolicyInput
approved = input_of (approval ∷ [])

approved_allowed : (evaluate_assurance_policy env approved).allowed ≡ true
unfolding evaluate_assurance_policy objections_of run_objections gate_objections evidence_objections
    current_evidence evidence_identity_matches current_reviews review_identity_matches
    loop_objections review_objections own_objections approval_objections mode_objections
    finalize_objections pending_roles_of satisfied_roles_of required_roles_of sorted_unique unique
    same_set same_list dedupe_from filter any every flat_map contains find reverse_onto sort_from
    insert_by is_recognized_assurance_role is_known_gate_id is_review_gate review_gate_role gate_def
    find_gate typed_selection_plan_is_valid typed_plan_digest_is_valid is_plan_bound
    are_obligations_sound has_obligations_of is_plan_covered review_references_are_current
    evidence_ref approvals_of is_session_reused role_of_session role_gate_is_sufficient
    assurance_role_to_gates has_relevant_evidence typed_role_obligations approvals_in loop_seen
    remember
approved_allowed = refl

-- The policy does not object when, after an approval, the same role demands a correction of the same
-- digest: only approvals are counted against each other.
contradicted_allowed :
    (evaluate_assurance_policy env (input_of (approval ∷ correction ∷ []))).allowed ≡ true
unfolding evaluate_assurance_policy objections_of run_objections gate_objections evidence_objections
    current_evidence evidence_identity_matches current_reviews review_identity_matches
    loop_objections review_objections own_objections approval_objections mode_objections
    finalize_objections pending_roles_of satisfied_roles_of required_roles_of sorted_unique unique
    same_set same_list dedupe_from filter any every flat_map contains find reverse_onto sort_from
    insert_by is_recognized_assurance_role is_known_gate_id is_review_gate review_gate_role gate_def
    find_gate typed_selection_plan_is_valid typed_plan_digest_is_valid is_plan_bound
    are_obligations_sound has_obligations_of is_plan_covered review_references_are_current
    evidence_ref approvals_of is_session_reused role_of_session role_gate_is_sufficient
    assurance_role_to_gates has_relevant_evidence typed_role_obligations approvals_in loop_seen
    remember
contradicted_allowed = refl

-- A second approval of the role is objected to.
repeated_refused :
    (evaluate_assurance_policy env (input_of (approval ∷ approval ∷ []))).allowed ≡ false
unfolding evaluate_assurance_policy objections_of run_objections gate_objections evidence_objections
    current_evidence evidence_identity_matches current_reviews review_identity_matches
    loop_objections review_objections own_objections approval_objections mode_objections
    finalize_objections pending_roles_of satisfied_roles_of required_roles_of sorted_unique unique
    same_set same_list dedupe_from filter any every flat_map contains find reverse_onto sort_from
    insert_by is_recognized_assurance_role is_known_gate_id is_review_gate review_gate_role gate_def
    find_gate typed_selection_plan_is_valid typed_plan_digest_is_valid is_plan_bound
    are_obligations_sound has_obligations_of is_plan_covered review_references_are_current
    evidence_ref approvals_of is_session_reused role_of_session role_gate_is_sufficient
    assurance_role_to_gates has_relevant_evidence typed_role_obligations approvals_in loop_seen
    remember
repeated_refused = refl

evaluate_assurance_policy-finalize_example :
    All
      (λ role. (r : ReviewRecord) × IsApprovedBy env approved role r)
      (required_roles_of env approved)
evaluate_assurance_policy-finalize_example =
    evaluate_assurance_policy-finalize env approved refl approved_allowed

evaluate_assurance_policy-AllApart_example : AllApart (current_reviews approved)
evaluate_assurance_policy-AllApart_example =
    evaluate_assurance_policy-AllApart env approved approved_allowed

evaluate_assurance_policy-run_example :
    (has_text approved.run.current_change_digest ≡ true)
    × (has_text approved.run.implementer_session_id ≡ true)
    × (approved.run.scope_violations ≡ [])
    × (same_set env approved.run.required_reviewers approved.work_order.assurance_reviewers ≡ true)
    × (same_set env approved.run.selected_gates approved.work_order.quality_gates ≡ true)
    × (typed_selection_plan_is_valid env approved ≡ true)
    × All
        (λ s. is_review_gate s.gate_id ≡ false → s.status ≡ GateRuntimeStatus.pass)
        approved.gate_states
evaluate_assurance_policy-run_example = evaluate_assurance_policy-run env approved approved_allowed
