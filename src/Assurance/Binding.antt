-- ===== src/Assurance/Binding.antt =====
-- The records and the specialist selection that the policy takes for bound to the run: their
-- identity, and the obligations with who covers them.
use Prim.Native.String.{String}
use uads.Common.{
  Bool, true, false, not, ◌&&◌, List, [], ◌∷◌, ◌++◌, Option, none, some, map, any, every, filter,
  contains, ◌==◌, string_eq, if◌then◌else◌, ◌&◌,
}
use uads.Common.Find.{find}
use uads.Common.Nullable.{same_nullable}
use uads.Kernel.Execution.{ExecutionRun}
use uads.Gates.Registry.{GateDef, gate_def, is_known_gate_id}
use uads.Gates.Records.{EvidenceRecord, ReviewRecord, evidence_status_eq, verdict_eq}
use uads.Gates.States.{same_text}
use uads.Assurance.Types.{
  AssurancePolicyInput, ObligationCoverage, ObligationKind, PolicyEnv, SelectionPlan,
  SpecialistObligation, SpecialistSelection, obligation_kind_eq,
}

unfoldable pub evidence_ref : ExecutionRun → EvidenceRecord → String
evidence_ref run r =
    "sidecar://execution-runs/" & run.execution_run_id & "/evidence/" & r.evidence_id & ".json"

unfoldable pub review_identity_matches : AssurancePolicyInput → ReviewRecord → Bool
review_identity_matches input r =
    (r.project_id == input.project_id)
    && ((r.project_id == input.work_order.project_id)
        && ((r.work_order_id == input.work_order.work_order_id)
            && ((r.execution_run_id == input.run.execution_run_id)
                && same_text r.change_digest input.run.current_change_digest)))

unfoldable pub evidence_identity_matches : AssurancePolicyInput → EvidenceRecord → Bool
evidence_identity_matches input r =
    (r.project_id == input.project_id)
    && ((r.project_id == input.work_order.project_id)
        && ((r.work_order_id == input.work_order.work_order_id)
            && ((r.execution_run_id == input.run.execution_run_id)
                && same_text r.change_digest input.run.current_change_digest)))

unfoldable pub current_evidence : AssurancePolicyInput → List EvidenceRecord
current_evidence input = filter (evidence_identity_matches input) input.evidence

abbrev pub with_candidate : List ReviewRecord → Option ReviewRecord → List ReviewRecord
with_candidate reviews none = reviews
with_candidate reviews (some r) = reviews ++ (r ∷ [])

unfoldable pub current_reviews : AssurancePolicyInput → List ReviewRecord
current_reviews input =
    filter (review_identity_matches input) (with_candidate input.reviews input.candidate)

-- `obligation.evidenceId === gateDef(obligation.gateId)?.evidence`
abbrev names_evidence : Option GateDef → Option String → Bool
names_evidence none evidence_id = false
names_evidence (some g) evidence_id = same_nullable evidence_id (some g.evidence)

abbrev is_gate_sound : Option String → Option String → Bool
is_gate_sound none evidence_id = false
is_gate_sound (some id) evidence_id =
    not (id == "") && (is_known_gate_id id && names_evidence (gate_def id) evidence_id)

-- Every obligation has an id of its own, and one of a gate names a known gate and its evidence.
unfoldable pub are_obligations_sound : List String → List SpecialistObligation → Bool
are_obligations_sound seen [] = true
are_obligations_sound seen (o ∷ os) =
    not (contains seen o.obligation_id)
    && ((if o.kind == ObligationKind.gate then is_gate_sound o.gate_id o.evidence_id else true)
        && are_obligations_sound (o.obligation_id ∷ seen) os)

abbrev covers_obligation : List String → ObligationCoverage → Option SpecialistObligation → Bool
covers_obligation selected_ids item none = false
covers_obligation selected_ids item (some o) =
    contains selected_ids item.specialist_id
    && (same_nullable item.gate_id o.gate_id
        && (same_nullable item.evidence_id o.evidence_id
            && ((item.coverage_kind == o.kind)
                && elim o.specialist_id [ none ↦ true | some s ↦ item.specialist_id == s ])))

abbrev pub find_obligation : List SpecialistObligation → String → Option SpecialistObligation
find_obligation os id = find (λ (o : SpecialistObligation). o.obligation_id == id) os

-- `matches.length === 1`, with the gate and the evidence of the obligation.
abbrev is_covered_once : SpecialistObligation → List ObligationCoverage → Bool
is_covered_once o [] = false
is_covered_once o (c ∷ []) =
    same_nullable c.gate_id o.gate_id && same_nullable c.evidence_id o.evidence_id
is_covered_once o (c ∷ d ∷ cs) = false

abbrev selected_ids_of : SelectionPlan → List String
selected_ids_of plan =
    map (λ (s : SpecialistSelection). s.specialist_id) (plan.selected ++ plan.assurance)

abbrev pub is_nil {ℓ} : {A : Type ℓ} → List A → Bool
is_nil [] = true
is_nil (x ∷ xs) = false

unfoldable pub is_plan_bound : AssurancePolicyInput → SelectionPlan → Bool
is_plan_bound input plan =
    (plan.project_id == input.project_id)
    && ((plan.project_id == input.work_order.project_id)
        && (plan.work_order_id == input.work_order.work_order_id))

unfoldable pub has_obligations_of : ExecutionRun → List SpecialistObligation → Bool
has_obligations_of run required =
    every
      (λ id.
        any
          (λ (o : SpecialistObligation).
            (o.kind == ObligationKind.gate) && same_nullable (some id) o.gate_id)
          required)
      run.selected_gates
    && every
        (λ role.
          any (λ (o : SpecialistObligation). o.obligation_id == "assurance:" & role) required)
        run.required_reviewers

unfoldable pub is_plan_covered : SelectionPlan → Bool
is_plan_covered plan =
    every
      (λ (c : ObligationCoverage).
        covers_obligation (selected_ids_of plan) c
          (find_obligation plan.required_obligations c.obligation_id))
      plan.covered_obligations
    && every
        (λ (o : SpecialistObligation). is_covered_once o (
          filter (λ (c : ObligationCoverage). c.obligation_id == o.obligation_id)
            plan.covered_obligations))
        plan.required_obligations

module _ (env : PolicyEnv) where
  unfoldable pub typed_plan_digest_is_valid : SelectionPlan → Bool
  typed_plan_digest_is_valid plan = plan.selection_digest == env.plan_digest plan

  abbrev pub is_valid_plan : AssurancePolicyInput → Option SelectionPlan → Bool
  is_valid_plan input none = false
  is_valid_plan input (some plan) =
      (plan.is_selected && typed_plan_digest_is_valid plan)
      && (is_plan_bound input plan
          && ((is_nil plan.unmet_coverage
                && (is_nil plan.unmet_obligations && is_nil plan.blocked_reason_codes))
              && (are_obligations_sound [] plan.required_obligations
                  && (has_obligations_of input.run plan.required_obligations
                      && is_plan_covered plan))))

  unfoldable pub typed_selection_plan_is_valid : AssurancePolicyInput → Bool
  typed_selection_plan_is_valid input = is_valid_plan input input.specialist_selection_plan
