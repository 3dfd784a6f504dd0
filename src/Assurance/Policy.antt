-- ===== src/Assurance/Policy.antt =====
-- `evaluateAssurancePolicy` of src/kernel/assurance-policy.ts.
use Prim.Native.String.{String}
use Prim.Native.Nat.{suc}
use uads.Common.{
  Bool, true, false, not, ◌&&◌, ◌||◌, List, [], ◌∷◌, ◌++◌, Option, none, some, map, any, filter,
  flat_map, contains, dedupe, ◌==◌, string_eq, ◌&◌, head?,
}
use uads.Common.Sort.{sort_by}
use uads.Common.Nullable.{has_text, same_list, same_nullable}
use uads.Kernel.Ids.{unique}
use uads.Gates.Registry.{is_known_gate_id, is_review_gate}
use uads.Gates.Records.{
  EvidenceRecord, GateRuntimeStatus, GateStateSnapshot, ReviewFinding, ReviewRecord, ReviewVerdict,
  Severity, critical, evidence_status_eq, high, low, medium, verdict_eq,
}
use uads.Gates.States.{is_blocked_record, is_failed_record, same_text}
use uads.Assurance.Types.{
  AssuranceMode, AssurancePolicyInput, AssurancePolicyResult, FindingCounts, PolicyEnv,
}
use uads.Assurance.Roles.{
  Objection, ReasonCode, blocker_text, code_text, is_recognized_assurance_role, object_if,
}
use uads.Assurance.Binding.{
  current_evidence, current_reviews, evidence_ref, is_nil, typed_selection_plan_is_valid,
}
use uads.Assurance.Reviews.{
  approvals_of, is_approval, is_of_role, loop_objections, loop_seen, nothing_seen,
}

abbrev is_pass_status : GateRuntimeStatus → Bool
is_pass_status GateRuntimeStatus.pass = true
is_pass_status GateRuntimeStatus.pending = false
is_pass_status GateRuntimeStatus.fail = false
is_pass_status GateRuntimeStatus.blocked = false

abbrev pub gate_status_text : GateRuntimeStatus → String
gate_status_text GateRuntimeStatus.pending = "PENDING"
gate_status_text GateRuntimeStatus.pass = "PASS"
gate_status_text GateRuntimeStatus.fail = "FAIL"
gate_status_text GateRuntimeStatus.blocked = "BLOCKED"

unfoldable pub gate_objections : GateStateSnapshot → List Objection
gate_objections s =
    object_if (not (is_review_gate s.gate_id) && not (is_pass_status s.status))
      ReasonCode.non_review_gate_not_pass (some (s.gate_id & ":" & gate_status_text s.status))

unfoldable pub evidence_objections : List String → EvidenceRecord → List Objection
evidence_objections selected r =
    object_if
      (contains selected r.gate_id
        && ((is_failed_record r || is_blocked_record r) && not (is_review_gate r.gate_id)))
      ReasonCode.current_fail_blocked_evidence (some r.gate_id)

abbrev count_finding : Severity → FindingCounts → FindingCounts
count_finding low c = record c { low = suc c.low }
count_finding medium c = record c { medium = suc c.medium }
count_finding high c = record c { high = suc c.high }
count_finding critical c = record c { critical = suc c.critical }

unfoldable pub count_findings : FindingCounts → List ReviewFinding → FindingCounts
count_findings c [] = c
count_findings c (f ∷ fs) = count_findings (count_finding f.severity c) fs

unfoldable pub review_finding_counts : List ReviewRecord → FindingCounts
review_finding_counts reviews =
    count_findings (record { low = 0; medium = 0; high = 0; critical = 0 })
      (flat_map (λ (r : ReviewRecord). r.findings) reviews)

module _ (env : PolicyEnv) where
  unfoldable pub sorted_unique : List String → List String
  sorted_unique values = sort_by env.locale_compare (unique values)

  unfoldable pub same_set : List String → List String → Bool
  same_set left right = same_list (sorted_unique left) (sorted_unique right)

  unfoldable pub required_roles_of : AssurancePolicyInput → List String
  required_roles_of input = sorted_unique input.run.required_reviewers

  -- The checks of the run against its work order, before any review is read.
  unfoldable pub run_objections : AssurancePolicyInput → List Objection
  run_objections input =
      let run = input.run in
      object_if (not (has_text run.current_change_digest)) ReasonCode.current_digest_required none
      ++ (object_if (not (has_text run.implementer_session_id))
            ReasonCode.implementer_session_required none
          ++ (object_if (elim run.scope_violations [ [] ↦ false | v ∷ vs ↦ true ])
                ReasonCode.scope_violation none
              ++ (object_if
                    (has_text run.reviewed_change_digest
                      && not (same_nullable run.reviewed_change_digest run.current_change_digest))
                    ReasonCode.reviewed_digest_mismatch none
                  ++ (object_if
                        (not (same_set run.required_reviewers input.work_order.assurance_reviewers)
                          || any (λ role. not (is_recognized_assurance_role role))
                              (required_roles_of input))
                        ReasonCode.required_role_binding_mismatch none
                      ++ (object_if
                            (not (same_set run.selected_gates input.work_order.quality_gates)
                              || any (λ id. not (is_known_gate_id id)) run.selected_gates)
                            ReasonCode.selected_gate_binding_mismatch none
                          ++ object_if (not (typed_selection_plan_is_valid env input))
                              ReasonCode.specialist_selection_invalid none)))))

  unfoldable pub approvals_in : AssurancePolicyInput → List ReviewRecord
  approvals_in input = (loop_seen nothing_seen (current_reviews input)).approvals

  abbrev is_satisfied : AssurancePolicyInput → String → Bool
  is_satisfied input role = any (is_of_role role) (approvals_in input)

  unfoldable pub satisfied_roles_of : AssurancePolicyInput → List String
  satisfied_roles_of input = filter (is_satisfied input) (required_roles_of input)

  unfoldable pub pending_roles_of : AssurancePolicyInput → List String
  pending_roles_of input =
      filter (λ role. not (contains (satisfied_roles_of input) role)) (required_roles_of input)

  unfoldable pub blocked_roles_of : AssurancePolicyInput → List String
  blocked_roles_of input =
      filter
        (λ role.
          any
            (λ (r : ReviewRecord).
              (r.reviewer_role == role) && (r.verdict == ReviewVerdict.review_blocked))
            (current_reviews input))
        (required_roles_of input)

  -- `approvalsByRole.get(role)?.[0]` with a verdict that is no approval
  abbrev first_objections : String → Option ReviewRecord → List Objection
  first_objections role none = []
  first_objections role (some r) =
      object_if (not (is_approval r)) ReasonCode.review_not_approved (some role)

  unfoldable pub finalize_objections : AssurancePolicyInput → List Objection
  finalize_objections input =
      map (λ role. record { code = ReasonCode.missing_required_reviewer; subject = some role })
        (pending_roles_of input)
      ++ flat_map (λ role. first_objections role (head? (approvals_of role (approvals_in input))))
          (required_roles_of input)

  abbrev is_valid_candidate : AssurancePolicyInput → Option ReviewRecord → Bool
  is_valid_candidate input none = false
  is_valid_candidate input (some r) =
      is_recognized_assurance_role r.reviewer_role
      && (contains (required_roles_of input) r.reviewer_role
          && same_text r.change_digest input.run.current_change_digest)

  abbrev pub objections_in_mode : AssuranceMode → AssurancePolicyInput → List Objection
  objections_in_mode AssuranceMode.status input = []
  objections_in_mode AssuranceMode.submission input =
      object_if (not (is_valid_candidate input input.candidate))
        ReasonCode.reviewer_role_not_required none
  objections_in_mode AssuranceMode.finalize input = finalize_objections input

  -- What the mode asks for beyond the common checks.
  unfoldable pub mode_objections : AssurancePolicyInput → List Objection
  mode_objections input = objections_in_mode input.mode input

  unfoldable pub objections_of : AssurancePolicyInput → List Objection
  objections_of input =
      run_objections input
      ++ (flat_map gate_objections input.gate_states
          ++ (flat_map (evidence_objections input.run.selected_gates) (current_evidence input)
              ++ (loop_objections input (required_roles_of input) (current_evidence input)
                    nothing_seen (current_reviews input)
                  ++ mode_objections input)))

  unfoldable pub evaluate_assurance_policy : AssurancePolicyInput → AssurancePolicyResult
  evaluate_assurance_policy input =
      let objections = objections_of input in
      record {
        allowed = is_nil (map blocker_text objections);
        reason_codes =
            sort_by env.locale_compare
              (dedupe (map (λ (o : Objection). code_text o.code) objections));
        blockers = sorted_unique (map blocker_text objections);
        required_roles = required_roles_of input;
        satisfied_roles = satisfied_roles_of input;
        pending_roles = pending_roles_of input;
        blocked_roles = blocked_roles_of input;
        current_evidence_refs =
            sort_by env.locale_compare (map (evidence_ref input.run) (current_evidence input));
        current_finding_counts = review_finding_counts (current_reviews input);
      }
