-- ===== src/Assurance/Selection.antt =====
-- What the policy reads of the obligations of a role: which of them are met by current evidence, and
-- whether the gates of the role are proved.
use Prim.Native.String.{String}
use uads.Common.{
  Bool, true, false, not, ◌&&◌, ◌||◌, List, [], Option, none, some, map, any, every, filter,
  contains, ◌==◌, string_eq, if◌then◌else◌,
}
use uads.Common.Find.{find, reverse_onto}
use uads.Common.Nullable.{same_nullable}
use uads.Gates.Registry.{GateDef, GateContractKind, gate_def}
use uads.Gates.Records.{
  EvidenceRecord, EvidenceRuntimeStatus, GateRuntimeStatus, GateStateSnapshot, ReviewRecord,
  ReviewVerdict, evidence_status_eq, verdict_eq,
}
use uads.Assurance.Types.{
  AssurancePolicyInput, ObligationCoverage, ObligationKind, SelectionPlan, SpecialistObligation,
  obligation_kind_eq,
}
use uads.Assurance.Roles.{assurance_role_to_gates, role_gate_ids}
use uads.Assurance.Binding.{evidence_ref, current_evidence, is_nil}

abbrev is_of_role_gate : String → Option String → Bool
is_of_role_gate role none = false
is_of_role_gate role (some id) = contains (role_gate_ids role) id

abbrev obligations_of_plan : Option SelectionPlan → String → List SpecialistObligation
obligations_of_plan none role = []
obligations_of_plan (some plan) role =
    filter
      (λ (o : SpecialistObligation).
        same_nullable o.specialist_id (some role)
        || ((o.kind == ObligationKind.gate) && is_of_role_gate role o.gate_id))
      plan.required_obligations

unfoldable pub typed_role_obligations : AssurancePolicyInput → String → List SpecialistObligation
typed_role_obligations input role = obligations_of_plan input.specialist_selection_plan role

abbrev is_reviewed_by : Option GateDef → String → Bool
is_reviewed_by none role = false
is_reviewed_by (some g) role = elim g.contract_kind [
  | GateContractKind.review ↦ same_nullable g.reviewer_role (some role)
  | GateContractKind.command ↦ false
  | GateContractKind.artifact ↦ false
  | GateContractKind.invariant ↦ false
]

-- `obligation.gateId ? gateDef(obligation.gateId) : undefined`
abbrev gate_of_obligation : Option String → Option GateDef
gate_of_obligation none = none
gate_of_obligation (some id) = if id == "" then none else gate_def id

abbrev needs_evidence : ObligationKind → Bool
needs_evidence k = (k == ObligationKind.gate) || (k == ObligationKind.evidence)

abbrev is_obligation_met :
    List EvidenceRecord → String → SpecialistObligation → Option ObligationCoverage → Bool
is_obligation_met current role o none = false
is_obligation_met current role o (some c) =
    if not (
      (c.specialist_id == role)
      && (same_nullable c.gate_id o.gate_id && same_nullable c.evidence_id o.evidence_id))
    then false
    else if not (needs_evidence o.kind)
    then true
    else if is_reviewed_by (gate_of_obligation o.gate_id) role
    then true
    else any
        (λ (r : EvidenceRecord).
          (r.status == EvidenceRuntimeStatus.evidence_pass)
          && same_nullable (some r.gate_id) o.gate_id)
        current

abbrev is_gate_of_role_selected : List String → String → Bool
is_gate_of_role_selected selected role =
    if role == "security-reviewer"
    then contains selected "security-review"
    else if role == "performance-reviewer"
    then contains selected "performance-check"
    else if role == "reliability-reviewer"
    then contains selected "rollback-validation"
    else true

abbrev has_evidence_in : AssurancePolicyInput → String → Option SelectionPlan → Bool
has_evidence_in input role none = false
has_evidence_in input role (some plan) =
    not (is_nil (typed_role_obligations input role))
    && (is_gate_of_role_selected input.run.selected_gates role
        && every
            (λ (o : SpecialistObligation). is_obligation_met (current_evidence input) role o (
              find (λ (c : ObligationCoverage). c.obligation_id == o.obligation_id)
                plan.covered_obligations))
            (typed_role_obligations input role))

unfoldable pub has_relevant_evidence : AssurancePolicyInput → String → Bool
has_relevant_evidence input role =
    if role == "independent-reviewer"
    then any
        (λ (o : SpecialistObligation).
          (o.kind == ObligationKind.assurance) && same_nullable o.specialist_id (some role))
        (typed_role_obligations input role)
    else has_evidence_in input role input.specialist_selection_plan

unfoldable pub review_references_are_current :
    AssurancePolicyInput → ReviewRecord → List EvidenceRecord → Bool
review_references_are_current input review evidence =
    every (contains (map (evidence_ref input.run) evidence)) review.evidence_refs

abbrev is_pass : Option GateStateSnapshot → Bool
is_pass none = false
is_pass (some s) = elim s.status [
  | GateRuntimeStatus.pass ↦ true
  | GateRuntimeStatus.pending ↦ false
  | GateRuntimeStatus.fail ↦ false
  | GateRuntimeStatus.blocked ↦ false
]

abbrev role_of_gate : Option GateDef → Option String
role_of_gate none = none
role_of_gate (some g) = g.reviewer_role

-- A role's own review gate is proved by the approval itself; of equal ids the last state counts.
unfoldable pub is_role_gate_sufficient :
    AssurancePolicyInput → String → ReviewRecord → String → Bool
is_role_gate_sufficient input role review id =
    if not (contains input.run.selected_gates id)
    then true
    else if ((role == "security-reviewer") || (role == "performance-reviewer"))
        && (same_nullable (role_of_gate (gate_def id)) (some role)
            && (review.verdict == ReviewVerdict.approved))
    then true
    else is_pass
        (find (λ (s : GateStateSnapshot). s.gate_id == id) (reverse_onto [] input.gate_states))

unfoldable pub role_gate_is_sufficient : AssurancePolicyInput → String → ReviewRecord → Bool
role_gate_is_sufficient input role review =
    every (is_role_gate_sufficient input role review) (assurance_role_to_gates role)
