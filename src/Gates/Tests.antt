-- ===== src/Gates/Tests.antt =====
-- Two gates, three records and a review, and the theorems on gates at them.
use Prim.Native.String.{String}
use mathlib.Core.List.{Memᴰ}
use uads.Common.{
  Bool, true, false, List, [], ◌∷◌, ◌++◌, Option, none, some, any, filter, contains, ◌≡◌, ◌↔◌, ◌⊎◌,
  refl, string_eq,
}
use uads.Common.Int.{pos}
use uads.Common.Find.{find, reverse_onto}
use uads.Gates.Registry.{
  EvidenceKind, GateDef, command_gate, gate_def, find_gate, is_review_gate, review_gate_role,
  kind_eq,
}
use uads.Gates.Records.{
  EvidenceRecord, EvidenceRuntimeStatus, GateRuntimeStatus, ReviewFinding, ReviewRecord,
  ReviewVerdict, high,
}
use uads.Gates.Evidence.{evidence_satisfies_gate, is_command_proof}
use uads.Gates.States.{
  Validation, is_current_evidence, is_current_review, is_passing, is_blocked_record,
  is_failed_record, derive_gate_state, evidence_gate_state, review_gate_state, review_status,
  is_tainted_approval,
}
use uads.Gates.Current.{IsCurrent}
use uads.Gates.Verdicts.{
  derive_gate_state_pass, derive_gate_state_complete, derive_gate_state-stale,
  derive_gate_state_sticky,
}
use uads.Gates.Reviews.{IsReviewed, review_gate_state-pass_iff}

abbrev static_gate : GateDef
static_gate = command_gate "static" "gate:static" "static analysis"

abbrev record_of : String → String → EvidenceRuntimeStatus → EvidenceRecord
record_of id digest status = record {
  evidence_id = id;
  project_id = "p";
  work_order_id = "w";
  execution_run_id = "r";
  change_digest = digest;
  gate_id = "static";
  source_role = "implementer";
  kind = EvidenceKind.command;
  created_at = "now";
  status = status;
  summary = "lint";
  command = some "npm run lint";
  exit_code = some (pos 0);
  output_ref = some "out.txt";
  output_digest = some "d1";
  file_ref = none;
  file_digest = none;
  source = none;
  source_cache_record_id = none;
  source_evidence_id = none;
  cache_decision_id = none;
  reuse_proof_digest = none;
  gate_reuse_contract_identity = none;
}

abbrev passed : EvidenceRecord
passed = record_of "e1" "now" EvidenceRuntimeStatus.evidence_pass

abbrev failed : EvidenceRecord
failed = record_of "e2" "now" EvidenceRuntimeStatus.evidence_fail

abbrev outdated : EvidenceRecord
outdated = record_of "e3" "old" EvidenceRuntimeStatus.evidence_fail

abbrev approval : List ReviewFinding → ReviewRecord
approval findings = record {
  review_id = "v1";
  project_id = "p";
  work_order_id = "w";
  execution_run_id = "r";
  change_digest = "now";
  reviewer_role = "security-reviewer";
  review_session_id = "s2";
  implementer_role = "implementer";
  implementer_session_id = "s1";
  verdict = ReviewVerdict.approved;
  summary = "fine";
  findings = findings;
  reason_codes = none;
  evidence_refs = [];
  created_at = "now";
}

abbrev no_reuse : Validation → String → Option String → EvidenceRecord → Bool
no_reuse v id digest r = false

abbrev run_context : Option Validation
run_context =
    some (record { project_id = "p"; work_order_id = some (some "w"); execution_run_id = none })

derive_gate_state_pass_example :
    (def : GateDef) × (r : EvidenceRecord) × (gate_def "static" ≡ some def)
    × Memᴰ r (outdated ∷ passed ∷ [])
    × (is_current_evidence "static" (some "now") run_context r ≡ true)
    × (is_passing no_reuse def "static" (some "now") run_context r ≡ true)
    × ((derive_gate_state no_reuse
          (some "now")
          (outdated ∷ passed ∷ [])
          []
          run_context
          "static").evidence_id
        ≡ some r.evidence_id)
    × (any is_blocked_record
          (filter (is_current_evidence "static" (some "now") run_context) (outdated ∷ passed ∷ []))
        ≡ false)
    × (any is_failed_record
          (filter (is_current_evidence "static" (some "now") run_context) (outdated ∷ passed ∷ []))
        ≡ false)
unfolding is_review_gate review_gate_role gate_def find_gate derive_gate_state evidence_gate_state
    is_current_evidence filter any find reverse_onto is_passing evidence_satisfies_gate contains
    is_command_proof
derive_gate_state_pass_example =
    derive_gate_state_pass no_reuse (some "now") (outdated ∷ passed ∷ []) [] run_context "static"
      refl refl

derive_gate_state_complete_example :
    (derive_gate_state no_reuse
      (some "now")
      (outdated ∷ passed ∷ [])
      []
      run_context
      "static").status
    ≡ GateRuntimeStatus.pass
unfolding is_review_gate review_gate_role gate_def find_gate is_current_evidence filter any
    is_passing evidence_satisfies_gate contains is_command_proof
derive_gate_state_complete_example =
    derive_gate_state_complete no_reuse (some "now") (outdated ∷ passed ∷ []) [] run_context
      "static" static_gate refl refl refl refl refl

-- The outdated record is of another digest.
outdated_here : ¬ IsCurrent "static" (some "now") run_context outdated
outdated_here h =
    let other : some passed.change_digest ≡ some outdated.change_digest = h.1 in
    let same : passed.change_digest ≡ outdated.change_digest = cc other in
    let no : false ≡ true =
      (string_eq.beq_iff passed.change_digest outdated.change_digest).1 same in
    cc no

derive_gate_state-stale_example :
    derive_gate_state no_reuse
      (some "now")
      ((passed ∷ []) ++ (outdated ∷ []))
      []
      run_context
      "static"
    ≡ derive_gate_state no_reuse (some "now") ((passed ∷ []) ++ []) [] run_context "static"
derive_gate_state-stale_example =
    derive_gate_state-stale no_reuse (some "now") (passed ∷ []) [] outdated [] run_context "static"
      outdated_here

derive_gate_state_sticky_example :
    let status =
      (derive_gate_state no_reuse
        (some "now")
        (outdated ∷ failed ∷ passed ∷ [])
        []
        run_context
        "static").status in
    (failed.status ≡ EvidenceRuntimeStatus.evidence_blocked → status ≡ GateRuntimeStatus.blocked)
    × (failed.status ≡ EvidenceRuntimeStatus.evidence_fail
        → (status ≡ GateRuntimeStatus.fail) ⊎ (status ≡ GateRuntimeStatus.blocked))
unfolding is_review_gate review_gate_role gate_def find_gate
derive_gate_state_sticky_example =
    derive_gate_state_sticky no_reuse (some "now") (outdated ∷ failed ∷ passed ∷ []) [] run_context
      "static" failed refl (Memᴰ.tail (Memᴰ.head refl)) (refl, refl, (refl, refl, tt))

review_gate_state-pass_iff_example :
    ((review_gate_state "security-review" (some "now") (approval [] ∷ []) run_context).status
      ≡ GateRuntimeStatus.pass)
    ↔ IsReviewed (some "now") (review_gate_role "security-review") (approval [] ∷ []) run_context
review_gate_state-pass_iff_example =
    review_gate_state-pass_iff "security-review" (some "now") (approval [] ∷ []) run_context

-- An approval over a HIGH finding fails the gate.
tainted :
    (review_gate_state "security-review"
      (some "now")
      (approval (record { severity = high; category = "auth"; message = "open" } ∷ []) ∷ [])
      run_context).status
    ≡ GateRuntimeStatus.fail
unfolding review_gate_state review_gate_role gate_def find_gate review_status is_current_review
    is_tainted_approval filter any
tainted = refl
