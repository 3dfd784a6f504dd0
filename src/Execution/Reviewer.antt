-- ===== src/Execution/Reviewer.antt =====
-- What `runAssuranceRecord` of src/kernel/execution.ts is given, the record that it makes of it, and
-- who may review.
use Prim.Native.String.{String}
use uads.Common.{
  not, ◌&&◌, ◌||◌, List, [], ◌∷◌, Option, none, some, map, filter, contains, ◌==◌, string_eq,
  if◌then◌else◌, ◌&◌,
}
use uads.Common.Sort.{sort_by}
use uads.Common.Nullable.{has_text, or_text}
use uads.Kernel.Types.{WorkOrder, implementer_role}
use uads.Kernel.Execution.{ExecutionRun, ExecutionStatus, execution_phase_eq, execution_status_eq}
use uads.Gates.Records.{EvidenceRecord, ReviewFinding, ReviewRecord, ReviewVerdict, verdict_eq}
use uads.Gates.States.{same_text}
use uads.Assurance.Roles.{ReasonCode, code_text, is_recognized_assurance_role}
use uads.Assurance.Binding.{evidence_ref}
use uads.Assurance.Reviews.{has_no_findings}
use uads.Execution.Store.{
  Action, ExecutionError, Result, World, ◌>>=◌, ◌>>◌, execution_blocked, or_raise, pure, raise,
  raise_if, returned, thrown,
}
use uads.Execution.Run.{requires_implementation}
use uads.Execution.Verify.{status_text}

pub record ReviewInput : Type 0 where
  pub role : String
  pub session : String
  pub implementer_session : Option String
  pub verdict : ReviewVerdict
  pub summary : String
  pub findings : Result (List ReviewFinding)  -- what `parseFindings` gives

abbrev pub parsed : Result (List ReviewFinding) → Action (List ReviewFinding)
parsed (returned fs) = pure fs
parsed (thrown e) = raise e

abbrev reasons_for : ReviewVerdict → List ReviewFinding → List String
reasons_for verdict findings =
    if has_no_findings findings && (verdict == ReviewVerdict.review_blocked)
    then code_text ReasonCode.review_is_blocked ∷ []
    else if has_no_findings findings && (verdict == ReviewVerdict.correction_needed)
    then code_text ReasonCode.review_correction_required ∷ []
    else []

pub record Reviewed : Type 0 where
  pub record_kept : ReviewRecord  -- `record`
  pub run : ExecutionRun

module _ (world : World) where
  unfoldable pub review_id_for : ExecutionRun → String → String
  review_id_for run role =
      "rv_"
      & world.digest (
          run.execution_run_id
          & ":"
          & role
          & ":"
          & or_text run.current_change_digest ""
          & ":"
          & world.now)

  unfoldable pub current_evidence_refs : ExecutionRun → List EvidenceRecord → List String
  current_evidence_refs run evidence = sort_by world.locale_compare (
      map (evidence_ref run) (
        filter
          (λ (r : EvidenceRecord).
            (r.project_id == world.project_id)
            && ((r.work_order_id == run.work_order_id)
                && ((r.execution_run_id == run.execution_run_id)
                    && same_text r.change_digest run.current_change_digest)))
          evidence))

  unfoldable pub review_record_of :
      ExecutionRun → ReviewInput → String → List ReviewFinding → List EvidenceRecord → ReviewRecord
  review_record_of run input implementer_session findings evidence = record {
    review_id = review_id_for run (world.redact input.role);
    project_id = run.project_id;
    work_order_id = run.work_order_id;
    execution_run_id = run.execution_run_id;
    change_digest = or_text run.current_change_digest "";
    reviewer_role = world.redact input.role;
    review_session_id = world.redact input.session;
    implementer_role = run.implementer_role;
    implementer_session_id = implementer_session;
    verdict = input.verdict;
    summary = world.redact input.summary;
    findings = findings;
    reason_codes = some (reasons_for input.verdict findings);
    evidence_refs = current_evidence_refs run evidence;
    created_at = world.now;
  }

  abbrev provided : Option String → String
  provided none = ""
  provided (some s) = if s == "" then "" else world.redact s

  abbrev missing_session : String → ExecutionError
  missing_session message = execution_blocked message ("missing implementer session" ∷ [])

  -- The reviewer's role and session against the bound session of the implementer.
  unfoldable pub distinct_reviewer : ExecutionRun → ReviewInput → String → Action String
  distinct_reviewer run input bound = do
    raise_if
        (not (provided input.implementer_session == "")
          && not (provided input.implementer_session == bound))
        (execution_blocked "caller implementer session does not match the bound run session"
          ("implementer session mismatch" ∷ []))
    raise_if
        ((world.redact input.role == run.implementer_role)
          || (world.redact input.role == implementer_role))
        (execution_blocked "implementer cannot self-review"
          ("reviewer role equals implementer role" ∷ []))
    raise_if (world.redact input.session == bound) (
        execution_blocked "same implementer/reviewer session"
          ("same implementer/reviewer session" ∷ []))
    raise_if (not (is_recognized_assurance_role (world.redact input.role))) (
        execution_blocked "reviewer role is not recognized by the assurance policy"
          ((code_text ReasonCode.unknown_reviewer_role & ":" & world.redact input.role) ∷ []))
    raise_if (not (contains run.required_reviewers (world.redact input.role))) (
        execution_blocked "reviewer role is not required for this Work Order"
          ((code_text ReasonCode.reviewer_role_not_required & ":" & world.redact input.role) ∷ []))
    pure bound

  -- The state of a run under review, then the reviewer; what is left is the bound session.
  unfoldable pub assert_reviewer : WorkOrder → ExecutionRun → ReviewInput → Action String
  assert_reviewer order run input = do
    raise_if
        ((run.status == ExecutionStatus.completed)
          || ((run.status == ExecutionStatus.blocked) || (run.status == ExecutionStatus.failed)))
        (execution_blocked "assurance record requires an active review run"
          (("status is " & status_text run.status) ∷ []))
    raise_if (not (has_text run.current_change_digest)) (
        execution_blocked "assurance record requires a current change digest"
          ("missing change digest" ∷ []))
    raise_if (requires_implementation order && not (has_text run.implementer_session_id))
        (missing_session "missing authoritative implementer session; re-dispatch a new run")
    raise_if (not (has_text run.implementer_session_id))
        (missing_session "missing authoritative implementer session; reviewer cannot invent it")
    bound ←
        or_raise run.implementer_session_id
          (missing_session "missing authoritative implementer session; reviewer cannot invent it")
    distinct_reviewer run input bound
