-- ===== src/Assurance/Reviews.antt =====
-- The loop of `evaluateAssurancePolicy` over the current reviews: what it objects to in each, and
-- what it remembers between them.
use Prim.Native.String.{String}
use uads.Common.{
  Bool, true, false, not, ◌&&◌, ◌||◌, List, [], ◌∷◌, ◌++◌, Option, none, some, any, filter,
  contains, ◌==◌, string_eq, if◌then◌else◌, ◌&◌,
}
use uads.Common.Nullable.{has_text, same_nullable, starts_with}
use uads.Gates.Records.{
  EvidenceRecord, ReviewFinding, ReviewRecord, ReviewVerdict, Severity, critical, high, low, medium,
  verdict_eq,
}
use uads.Assurance.Types.{AssuranceMode, AssurancePolicyInput}
use uads.Assurance.Roles.{Objection, ReasonCode, is_recognized_assurance_role, object_if}
use uads.Assurance.Selection.{
  has_relevant_evidence, review_references_are_current, role_gate_is_sufficient,
}
use uads.Assurance.Binding.{review_identity_matches}

-- The approvals seen so far, from which `approvalsByRole` is read; `approvedSessions` as pairs of a
-- session and its role; and the ids seen.
pub record Seen : Type 0 where
  pub approvals : List ReviewRecord
  pub sessions : List (String × String)
  pub ids : List String

abbrev pub nothing_seen : Seen
nothing_seen = record { approvals = []; sessions = []; ids = [] }

abbrev pub is_of_role : String → ReviewRecord → Bool
is_of_role role r = r.reviewer_role == role

unfoldable pub approvals_of : String → List ReviewRecord → List ReviewRecord
approvals_of role approvals = filter (is_of_role role) approvals

unfoldable pub role_of_session : List (String × String) → String → Option String
role_of_session [] session = none
role_of_session ((s, role) ∷ rest) session =
    if s == session then some role else role_of_session rest session

-- The session has approved already, for another role.
abbrev is_other_role : String → Option String → Bool
is_other_role role none = false
is_other_role role (some other) = not (other == role)

unfoldable pub is_session_reused : Seen → ReviewRecord → Bool
is_session_reused seen r =
    is_other_role r.reviewer_role (role_of_session seen.sessions r.review_session_id)

abbrev pub is_approval : ReviewRecord → Bool
is_approval r = r.verdict == ReviewVerdict.approved

-- What the loop remembers after a review. A role that is not recognized is passed over once its id
-- is kept.
unfoldable pub remember : Seen → ReviewRecord → Seen
remember seen r = record {
  approvals =
      if is_recognized_assurance_role r.reviewer_role && is_approval r
      then seen.approvals ++ (r ∷ [])
      else seen.approvals;
  sessions =
      if is_recognized_assurance_role r.reviewer_role
        && (is_approval r && not (is_session_reused seen r))
      then (r.review_session_id, r.reviewer_role) ∷ seen.sessions
      else seen.sessions;
  ids = r.review_id ∷ seen.ids;
}

abbrev pub is_high : Severity → Bool
is_high low = false
is_high medium = false
is_high high = true
is_high critical = false

abbrev pub is_critical : Severity → Bool
is_critical low = false
is_critical medium = false
is_critical high = false
is_critical critical = true

abbrev pub has_no_reasons : Option (List String) → Bool
has_no_reasons none = true
has_no_reasons (some []) = true
has_no_reasons (some (c ∷ cs)) = false

abbrev pub has_no_findings : List ReviewFinding → Bool
has_no_findings [] = true
has_no_findings (f ∷ fs) = false

abbrev is_status : AssuranceMode → Bool
is_status AssuranceMode.status = true
is_status AssuranceMode.submission = false
is_status AssuranceMode.finalize = false

-- More than one approval, this one counted.
abbrev pub has_more_than_one : List ReviewRecord → Bool
has_more_than_one [] = false
has_more_than_one (r ∷ []) = false
has_more_than_one (r ∷ s ∷ rs) = true

module _ (input : AssurancePolicyInput) (required_roles : List String)
    (evidence : List EvidenceRecord) where
  -- What is objected to in the review itself, whatever came before it.
  unfoldable pub own_objections : ReviewRecord → List Objection
  own_objections r =
      let role = some r.reviewer_role in
      object_if (not (contains required_roles r.reviewer_role))
        ReasonCode.reviewer_role_not_required role
      ++ (object_if (not (review_identity_matches input r)) ReasonCode.stale_review_digest role
          ++ (object_if (r.review_session_id == "") ReasonCode.review_session_missing role
              ++ (object_if (r.reviewer_role == input.run.implementer_role)
                    ReasonCode.implementer_role_review role
                  ++ (object_if (not (r.implementer_role == input.run.implementer_role))
                        ReasonCode.review_identity_mismatch role
                      ++ (object_if
                            (not (has_text input.run.implementer_session_id)
                              || not (
                                  same_nullable (some r.implementer_session_id)
                                    input.run.implementer_session_id))
                            ReasonCode.review_implementer_session_mismatch role
                          ++ (object_if
                                (same_nullable (some r.review_session_id)
                                  input.run.implementer_session_id)
                                ReasonCode.implementer_session_review role
                              ++ (object_if (not (review_references_are_current input r evidence))
                                    ReasonCode.evidence_reference_mismatch role
                                  ++ (object_if
                                        (any
                                          (λ ref. not (
                                            starts_with ref (
                                              "sidecar://execution-runs/"
                                              & input.run.execution_run_id & "/evidence/")))
                                          r.evidence_refs)
                                        ReasonCode.evidence_identity_mismatch role
                                      ++ (object_if
                                            (is_approval r
                                              && any (λ (f : ReviewFinding). is_high f.severity)
                                                  r.findings)
                                            ReasonCode.approval_contradicts_high_finding role
                                          ++ (object_if
                                                (is_approval r
                                                  && any
                                                      (λ (f : ReviewFinding).
                                                        is_critical f.severity)
                                                      r.findings)
                                                ReasonCode.approval_contradicts_critical_finding
                                                role
                                              ++ object_if
                                                  (((r.verdict == ReviewVerdict.review_blocked)
                                                      || (r.verdict
                                                          == ReviewVerdict.correction_needed))
                                                    && (has_no_findings r.findings
                                                        && has_no_reasons r.reason_codes))
                                                  ReasonCode.negative_verdict_reason_required
                                                  role))))))))))

  -- What is objected to in an approval.
  unfoldable pub approval_objections : Seen → ReviewRecord → List Objection
  approval_objections seen r =
      object_if (is_session_reused seen r) ReasonCode.duplicate_review_session
        (some r.review_session_id)
      ++ (object_if (has_more_than_one (approvals_of r.reviewer_role seen.approvals ++ (r ∷ [])))
            ReasonCode.duplicate_review_approval (some r.reviewer_role)
          ++ (object_if
                (not (is_status input.mode)
                  && not (role_gate_is_sufficient input r.reviewer_role r))
                (if r.reviewer_role == "reliability-reviewer"
                  then ReasonCode.reliability_obligation_unsatisfied
                  else ReasonCode.role_gate_mismatch)
                (some r.reviewer_role)
              ++ object_if
                  (not (is_status input.mode) && not (has_relevant_evidence input r.reviewer_role))
                  (if r.reviewer_role == "performance-reviewer"
                    then ReasonCode.performance_evidence_missing
                    else ReasonCode.typed_assurance_obligation_unsatisfied)
                  (some r.reviewer_role)))

  unfoldable pub review_objections : Seen → ReviewRecord → List Objection
  review_objections seen r =
      object_if (contains seen.ids r.review_id) ReasonCode.duplicate_review_id (some r.review_id)
      ++ (if is_recognized_assurance_role r.reviewer_role
          then own_objections r ++ (if is_approval r then approval_objections seen r else [])
          else object_if true ReasonCode.unknown_reviewer_role (some r.reviewer_role))

  unfoldable pub loop_objections : Seen → List ReviewRecord → List Objection
  loop_objections seen [] = []
  loop_objections seen (r ∷ rs) = review_objections seen r ++ loop_objections (remember seen r) rs

unfoldable pub loop_seen : Seen → List ReviewRecord → Seen
loop_seen seen [] = seen
loop_seen seen (r ∷ rs) = loop_seen (remember seen r) rs
