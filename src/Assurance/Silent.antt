-- ===== src/Assurance/Silent.antt =====
-- The blockers that `evaluateAssurancePolicy` lists, and its consent.
use Prim.Native.String.{String}
use text.Mathlib.TextLemmas.{append-eq-nil_iff}
use uads.Common.{
  All, true, false, not, List, [], ◌∷◌, Option, none, some, map, filter, dedupe, dedupe_from,
  contains, ◌==◌, string_eq, ◌≡◌, refl, ◌&◌, inl, inr, Bool-cases,
}
use uads.Common.Sort.{All-of_sort_by, sort_by}
use uads.Kernel.Ids.{unique}
use uads.Assurance.Types.{AssurancePolicyInput, PolicyEnv}
use uads.Assurance.Roles.{Objection, ReasonCode, blocker_text, code_text, with_subject}
use uads.Assurance.Binding.{is_nil}
use uads.Assurance.Policy.{evaluate_assurance_policy, objections_of, sorted_unique}
use uads.Assurance.Approvals.{filter-nil_all}

nothing_in : {A : Type 0} (xs : List A) → All (λ a. ⊥) xs → xs ≡ []
nothing_in [] h = refl
nothing_in (x ∷ xs) h = absurd h.0

dedupe-nil : (xs : List String) → dedupe xs ≡ [] → xs ≡ []
unfolding dedupe_from contains
dedupe-nil [] h = refl
dedupe-nil (x ∷ xs) h = cc h

joined-filled : (a b : String) → (a == "") ≡ false → (a & b == "") ≡ false
joined-filled a b h = elim (Bool-cases (a & b == "")) [
  | inl blank ↦
      let empty : a ≡ "" = (append-eq-nil_iff.0 ((string_eq.beq_iff (a & b) "").0 blank)).0 in
      let whole : (a == "") ≡ true = (string_eq.beq_iff a "").1 empty in cc (whole, h)
  | inr filled ↦ filled
]

code_text-filled : (c : ReasonCode) → (code_text c == "") ≡ false
code_text-filled ReasonCode.unknown_reviewer_role = refl
code_text-filled ReasonCode.reviewer_role_not_required = refl
code_text-filled ReasonCode.required_role_binding_mismatch = refl
code_text-filled ReasonCode.selected_gate_binding_mismatch = refl
code_text-filled ReasonCode.current_digest_required = refl
code_text-filled ReasonCode.implementer_session_required = refl
code_text-filled ReasonCode.scope_violation = refl
code_text-filled ReasonCode.reviewed_digest_mismatch = refl
code_text-filled ReasonCode.stale_review_digest = refl
code_text-filled ReasonCode.review_identity_mismatch = refl
code_text-filled ReasonCode.implementer_role_review = refl
code_text-filled ReasonCode.implementer_session_review = refl
code_text-filled ReasonCode.review_session_missing = refl
code_text-filled ReasonCode.review_implementer_session_mismatch = refl
code_text-filled ReasonCode.duplicate_review_approval = refl
code_text-filled ReasonCode.duplicate_review_id = refl
code_text-filled ReasonCode.duplicate_review_session = refl
code_text-filled ReasonCode.non_review_gate_not_pass = refl
code_text-filled ReasonCode.current_fail_blocked_evidence = refl
code_text-filled ReasonCode.evidence_reference_mismatch = refl
code_text-filled ReasonCode.evidence_identity_mismatch = refl
code_text-filled ReasonCode.approval_contradicts_high_finding = refl
code_text-filled ReasonCode.approval_contradicts_critical_finding = refl
code_text-filled ReasonCode.negative_verdict_reason_required = refl
code_text-filled ReasonCode.review_is_blocked = refl
code_text-filled ReasonCode.review_correction_required = refl
code_text-filled ReasonCode.role_gate_mismatch = refl
code_text-filled ReasonCode.performance_evidence_missing = refl
code_text-filled ReasonCode.reliability_obligation_unsatisfied = refl
code_text-filled ReasonCode.missing_required_reviewer = refl
code_text-filled ReasonCode.review_not_approved = refl
code_text-filled ReasonCode.specialist_selection_invalid = refl
code_text-filled ReasonCode.typed_assurance_obligation_missing = refl
code_text-filled ReasonCode.typed_assurance_obligation_unsatisfied = refl

with_subject-filled :
    (code : String) (subject : Option String)
    → (code == "") ≡ false
    → (with_subject code subject == "") ≡ false
with_subject-filled code none h = h
with_subject-filled code (some s) h = elim (Bool-cases (s == "")) [
  | inl blank ↦ rw blank h
  | inr filled ↦ rw filled (joined-filled code (":" & s) h)
]

no_texts :
    (os : List Objection)
    → All (λ v. not (v == "") ≡ false) (map blocker_text os)
    → is_nil (map blocker_text os) ≡ true
no_texts [] h = refl
no_texts (o ∷ os) h =
    let filled = with_subject-filled (code_text o.code) o.subject (code_text-filled o.code) in
    cc (filled, h.0)

module _ (env : PolicyEnv) where
  pub allowed_of_blockers :
      (input : AssurancePolicyInput)
      → (evaluate_assurance_policy env input).blockers ≡ []
      → (evaluate_assurance_policy env input).allowed ≡ true
  unfolding evaluate_assurance_policy sorted_unique unique
  allowed_of_blockers input h =
      let texts : List String = map blocker_text (objections_of env input) in
      let P : String → Type 0 = λ a. ⊥ in
      let sorted : All P (sort_by env.locale_compare (unique texts)) = rw h tt in
      let none_left : filter (λ v. not (v == "")) texts ≡ [] =
        dedupe-nil _ (nothing_in _ (All-of_sort_by env.locale_compare P (unique texts) sorted)) in
      no_texts (objections_of env input) (filter-nil_all _ texts none_left)
