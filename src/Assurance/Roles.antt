-- ===== src/Assurance/Roles.antt =====
-- The roles and the reason codes of src/kernel/assurance-policy.ts.
use Prim.Native.String.{String}
use uads.Common.{
  Bool, List, [], ◌∷◌, Option, none, some, map, contains, filter, ◌==◌, string_eq, if◌then◌else◌,
  ◌&◌,
}

abbrev pub assurance_roles : List String
assurance_roles =
    "independent-reviewer" ∷ "security-reviewer" ∷ "performance-reviewer" ∷ "reliability-reviewer"
    ∷ []

pub data ReasonCode : Type 0 where
  unknown_reviewer_role reviewer_role_not_required required_role_binding_mismatch : ReasonCode
  selected_gate_binding_mismatch current_digest_required implementer_session_required : ReasonCode
  scope_violation reviewed_digest_mismatch stale_review_digest : ReasonCode
  review_identity_mismatch implementer_role_review implementer_session_review : ReasonCode
  review_session_missing review_implementer_session_mismatch duplicate_review_approval : ReasonCode
  duplicate_review_id duplicate_review_session non_review_gate_not_pass : ReasonCode
  current_fail_blocked_evidence evidence_reference_mismatch : ReasonCode
  evidence_identity_mismatch approval_contradicts_high_finding : ReasonCode
  approval_contradicts_critical_finding negative_verdict_reason_required : ReasonCode
  review_is_blocked review_correction_required role_gate_mismatch : ReasonCode
  performance_evidence_missing reliability_obligation_unsatisfied : ReasonCode
  missing_required_reviewer review_not_approved specialist_selection_invalid : ReasonCode
  typed_assurance_obligation_missing typed_assurance_obligation_unsatisfied : ReasonCode

abbrev pub code_text : ReasonCode → String
code_text unknown_reviewer_role = "UNKNOWN_REVIEWER_ROLE"
code_text reviewer_role_not_required = "REVIEWER_ROLE_NOT_REQUIRED"
code_text required_role_binding_mismatch = "REQUIRED_ROLE_BINDING_MISMATCH"
code_text selected_gate_binding_mismatch = "SELECTED_GATE_BINDING_MISMATCH"
code_text current_digest_required = "CURRENT_DIGEST_REQUIRED"
code_text implementer_session_required = "IMPLEMENTER_SESSION_REQUIRED"
code_text scope_violation = "SCOPE_VIOLATION"
code_text reviewed_digest_mismatch = "REVIEWED_DIGEST_MISMATCH"
code_text stale_review_digest = "STALE_REVIEW_DIGEST"
code_text review_identity_mismatch = "REVIEW_IDENTITY_MISMATCH"
code_text implementer_role_review = "IMPLEMENTER_ROLE_REVIEW"
code_text implementer_session_review = "IMPLEMENTER_SESSION_REVIEW"
code_text review_session_missing = "REVIEW_SESSION_MISSING"
code_text review_implementer_session_mismatch = "REVIEW_IMPLEMENTER_SESSION_MISMATCH"
code_text duplicate_review_approval = "DUPLICATE_REVIEW_APPROVAL"
code_text duplicate_review_id = "DUPLICATE_REVIEW_ID"
code_text duplicate_review_session = "DUPLICATE_REVIEW_SESSION"
code_text non_review_gate_not_pass = "NON_REVIEW_GATE_NOT_PASS"
code_text current_fail_blocked_evidence = "CURRENT_FAIL_BLOCKED_EVIDENCE"
code_text evidence_reference_mismatch = "EVIDENCE_REFERENCE_MISMATCH"
code_text evidence_identity_mismatch = "EVIDENCE_IDENTITY_MISMATCH"
code_text approval_contradicts_high_finding = "APPROVAL_CONTRADICTS_HIGH_FINDING"
code_text approval_contradicts_critical_finding = "APPROVAL_CONTRADICTS_CRITICAL_FINDING"
code_text negative_verdict_reason_required = "NEGATIVE_VERDICT_REASON_REQUIRED"
code_text review_is_blocked = "REVIEW_BLOCKED"
code_text review_correction_required = "REVIEW_CORRECTION_REQUIRED"
code_text role_gate_mismatch = "ROLE_GATE_MISMATCH"
code_text performance_evidence_missing = "PERFORMANCE_EVIDENCE_MISSING"
code_text reliability_obligation_unsatisfied = "RELIABILITY_OBLIGATION_UNSATISFIED"
code_text missing_required_reviewer = "MISSING_REQUIRED_REVIEWER"
code_text review_not_approved = "REVIEW_NOT_APPROVED"
code_text specialist_selection_invalid = "SPECIALIST_SELECTION_INVALID"
code_text typed_assurance_obligation_missing = "TYPED_ASSURANCE_OBLIGATION_MISSING"
code_text typed_assurance_obligation_unsatisfied = "TYPED_ASSURANCE_OBLIGATION_UNSATISFIED"

unfoldable pub is_recognized_assurance_role : String → Bool
is_recognized_assurance_role value = contains assurance_roles value

-- `ROLE_DEFINITIONS[role].gateIds`
abbrev pub role_gate_ids : String → List String
role_gate_ids role =
    if role == "security-reviewer"
    then "security-review" ∷ []
    else if role == "performance-reviewer"
    then "performance-check" ∷ []
    else if role == "reliability-reviewer"
    then "database-migration" ∷ "rollback-validation" ∷ []
    else []

unfoldable pub assurance_role_to_gates : String → List String
assurance_role_to_gates role = if is_recognized_assurance_role role then role_gate_ids role else []

-- The record from each role to those of its gates that are selected, as its entries.
unfoldable pub assurance_role_gate_mapping : List String → List (String × List String)
assurance_role_gate_mapping selected =
    map (λ role. (role, filter (contains selected) (assurance_role_to_gates role))) assurance_roles

-- What `addReason` adds to the reasons and to the blockers.
pub record Objection : Type 0 where
  pub code : ReasonCode
  pub subject : Option String

abbrev pub with_subject : String → Option String → String
with_subject code none = code
with_subject code (some s) = if s == "" then code else code & ":" & s

abbrev pub blocker_text : Objection → String
blocker_text o = with_subject (code_text o.code) o.subject

-- `if (c) addReason(reasons, blockers, code, subject)`
abbrev pub object_if : Bool → ReasonCode → Option String → List Objection
object_if c code subject = if c then record { code = code; subject = subject } ∷ [] else []
