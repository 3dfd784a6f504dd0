-- ===== src/Gates/States.antt =====
-- `reviewGateState` and `deriveGateStates` of src/kernel/execution.ts. `valid_reuse` stands for
-- `validateCacheReuseEvidence`, which reads the cache store on disk (src/kernel/cache-integrity.ts).
use Prim.Native.String.{String}
use uads.Common.{
  Bool, true, false, ◌&&◌, ◌||◌, List, [], Option, none, some, map, any, filter, ◌==◌, string_eq,
  if◌then◌else◌,
}
use uads.Common.Find.{find, reverse_onto}
use uads.Gates.Registry.{GateDef, gate_def, review_gate_role, is_review_gate}
use uads.Gates.Records.{
  EvidenceRecord, EvidenceRuntimeStatus, GateRuntimeStatus, GateStateSnapshot, ReviewFinding,
  ReviewRecord, ReviewVerdict, is_severe, evidence_status_eq, verdict_eq,
}
use uads.Gates.Evidence.{evidence_satisfies_gate, is_cache_reuse}

-- `GateStateValidationContext`, less the paths. The optional ids may be missing (`none`: not
-- compared), null (`some none`: equal to no id of a record) or a text.
pub record Validation : Type 0 where
  pub project_id : String
  pub work_order_id : Option (Option String)
  pub execution_run_id : Option (Option String)

-- `a === b` of a text and one that may be null.
abbrev pub same_text : String → Option String → Bool
same_text a none = false
same_text a (some b) = a == b

abbrev pub matches_id : String → Option (Option String) → Bool
matches_id a none = true
matches_id a (some b) = same_text a b

abbrev pub matches_identity : String → String → String → Option Validation → Bool
matches_identity project order run none = true
matches_identity project order run (some v) =
    project == v.project_id
    && (matches_id order v.work_order_id && matches_id run v.execution_run_id)

unfoldable pub is_current_review : String → String → Option Validation → ReviewRecord → Bool
is_current_review digest role v r =
    r.change_digest == digest
    && (r.reviewer_role == role
        && matches_identity r.project_id r.work_order_id r.execution_run_id v)

unfoldable pub is_tainted_approval : ReviewRecord → Bool
is_tainted_approval r =
    r.verdict == ReviewVerdict.approved
    && any (λ (f : ReviewFinding). is_severe f.severity) r.findings

-- The status that the current reviews of a role give.
unfoldable pub review_status : List ReviewRecord → GateRuntimeStatus
review_status current =
    if any is_tainted_approval current
    then GateRuntimeStatus.fail
    else if any (λ (r : ReviewRecord). r.verdict == ReviewVerdict.review_blocked) current
    then GateRuntimeStatus.blocked
    else if any (λ (r : ReviewRecord). r.verdict == ReviewVerdict.correction_needed) current
    then GateRuntimeStatus.fail
    else if any (λ (r : ReviewRecord). r.verdict == ReviewVerdict.approved) current
    then GateRuntimeStatus.pass
    else GateRuntimeStatus.pending

-- The digest and the role, when both are there and not empty.
abbrev pub review_status_for :
    Option String → Option String → List ReviewRecord → Option Validation → GateRuntimeStatus
review_status_for none role reviews v = GateRuntimeStatus.pending
review_status_for (some d) none reviews v = GateRuntimeStatus.pending
review_status_for (some d) (some role) reviews v =
    if d == "" || role == ""
    then GateRuntimeStatus.pending
    else review_status (filter (is_current_review d role v) reviews)

unfoldable pub review_gate_state :
    String → Option String → List ReviewRecord → Option Validation → GateStateSnapshot
review_gate_state id digest reviews v = record {
  gate_id = id;
  status = review_status_for digest (review_gate_role id) reviews v;
  evidence_id = none;
}

unfoldable pub is_current_evidence :
    String → Option String → Option Validation → EvidenceRecord → Bool
is_current_evidence id digest v r =
    r.gate_id == id
    && (same_text r.change_digest digest
        && matches_identity r.project_id r.work_order_id r.execution_run_id v)

abbrev evidence_id_of : Option EvidenceRecord → Option String
evidence_id_of none = none
evidence_id_of (some r) = some r.evidence_id

abbrev pub gate_state : String → GateRuntimeStatus → Option EvidenceRecord → GateStateSnapshot
gate_state id status r = record { gate_id = id; status = status; evidence_id = evidence_id_of r }

abbrev pub is_blocked_record : EvidenceRecord → Bool
is_blocked_record r = r.status == EvidenceRuntimeStatus.evidence_blocked

abbrev pub is_failed_record : EvidenceRecord → Bool
is_failed_record r = r.status == EvidenceRuntimeStatus.evidence_fail

module _ (valid_reuse : Validation → String → Option String → EvidenceRecord → Bool) where
  abbrev pub is_valid_source : Option Validation → String → Option String → EvidenceRecord → Bool
  is_valid_source none id digest r = false
  is_valid_source (some v) id digest r = valid_reuse v id digest r

  -- A record that a gate may pass on.
  unfoldable pub is_passing :
      GateDef → String → Option String → Option Validation → EvidenceRecord → Bool
  is_passing def id digest v r =
      evidence_satisfies_gate r def
      && (if is_cache_reuse r.source then is_valid_source v id digest r else true)

  abbrev pub passing_state : String → Option EvidenceRecord → GateStateSnapshot
  passing_state id none = gate_state id GateRuntimeStatus.pending none
  passing_state id (some r) = gate_state id GateRuntimeStatus.pass (some r)

  abbrev pub settled_state :
      Option GateDef
      → String
      → Option String
      → Option Validation
      → List EvidenceRecord
      → GateStateSnapshot
  settled_state none id digest v current = gate_state id GateRuntimeStatus.pending none
  settled_state (some def) id digest v current =
      passing_state id (find (is_passing def id digest v) (reverse_onto [] current))

  -- The state of a gate that no reviewer decides, from the current records.
  unfoldable pub evidence_gate_state :
      String → Option String → Option Validation → List EvidenceRecord → GateStateSnapshot
  evidence_gate_state id digest v current =
      if any is_blocked_record current
      then gate_state id GateRuntimeStatus.blocked (find is_blocked_record current)
      else if any is_failed_record current
      then gate_state id GateRuntimeStatus.fail (find is_failed_record current)
      else settled_state (gate_def id) id digest v current

  unfoldable pub derive_gate_state :
      Option String
      → List EvidenceRecord
      → List ReviewRecord
      → Option Validation
      → String
      → GateStateSnapshot
  derive_gate_state digest evidence reviews v id =
      if is_review_gate id
      then review_gate_state id digest reviews v
      else evidence_gate_state id digest v (filter (is_current_evidence id digest v) evidence)

  unfoldable pub derive_gate_states :
      List String
      → Option String
      → List EvidenceRecord
      → List ReviewRecord
      → Option Validation
      → List GateStateSnapshot
  derive_gate_states selected digest evidence reviews v =
      map (derive_gate_state digest evidence reviews v) selected
