-- ===== src/Model/Router/Adequate.antt =====
-- What a profile has that `profileRejection` of src/kernel/model-router.ts lets through.
use uads.Common.{
  ℕ, ◌≤◌, ◌≡◌, ◌≢◌, ◌↔◌, refl, true, false, ◌||◌, List, [], ◌∷◌, ◌++◌, Option, none, some, arith,
  contains, string_eq, All, ◌==◌,
}
use uads.Kernel.Types.{RiskLevel, risk_eq}
use uads.Model.Types.{
  disabled, experimental, ModelCapability, proven, ModelProfile, ModelRoutingRequirements,
  ModelRoutingInput, RuntimeCapabilitySnapshot, model_selection, capability_eq,
}
use uads.Model.Requirements.Floors.{capability_rank, reasoning_rank}
use uads.Model.Runtime.{effective_capability, model_supports}
use uads.Model.Router.Reject.{
  Finding, tokens_needed, support_findings, capability_findings, status_findings, token_findings,
  profile_findings, profile_rejection,
}

-- A window that is known holds the tokens; an unknown one will do only for no tokens at all.
abbrev pub Holds : Option ℕ → ℕ → Type 0
Holds none tokens = tokens ≡ 0
Holds (some window) tokens = tokens ≤ window

abbrev pub AtMost : ℕ → Option ℕ → Type 0
AtMost tokens none = Unit
AtMost tokens (some most) = tokens ≤ most

-- The runtime proves the capability, and the model has it where that is the model's to have.
abbrev pub IsCapable : ModelProfile → RuntimeCapabilitySnapshot → ModelCapability → Type 0
IsCapable p runtime c =
    (effective_capability p runtime c ≡ true)
    × ((c == model_selection || model_supports p c) ≡ true)

pub record IsAdequate (input : ModelRoutingInput) (r : ModelRoutingRequirements) (p : ModelProfile)
    : Type 0 where
  pub not_disabled : p.status ≢ disabled
  pub experimental_allowed :
      p.status ≡ experimental
      → (r.allow_experimental ≡ true) × (input.work_order.risk_level ≢ RiskLevel.critical)
  pub not_blocked : contains r.blocked_provider_ids p.provider_id ≡ false
  pub class_reached :
      capability_rank r.required_capability_class ≤ capability_rank p.capability_class
  pub reasoning_reached :
      reasoning_rank r.minimum_reasoning_class ≤ reasoning_rank p.reasoning_class
  pub capable : All (IsCapable p input.runtime) r.required_capabilities
  pub runtime_proven : r.require_proven_runtime ≡ true → input.runtime.confidence ≡ proven
  pub window_holds : Holds p.context_window_tokens (tokens_needed r)
  pub reserve_fits : AtMost r.required_output_tokens p.max_output_tokens
  pub within_budget : tokens_needed r ≤ input.work_order.token_budget.hard_limit

append-eq-nil : (xs ys : List Finding) → xs ++ ys ≡ [] → (xs ≡ []) × (ys ≡ [])
append-eq-nil [] ys h = (refl, h)
append-eq-nil (x ∷ xs) ys h = cc

support_findings_iff :
    (p : ModelProfile) (runtime : RuntimeCapabilitySnapshot) (c : ModelCapability)
    → (support_findings p runtime c ≡ []) ↔ IsCapable p runtime c
unfolding support_findings
support_findings_iff p runtime c = ground arith

capability_findings_iff :
    (p : ModelProfile) (runtime : RuntimeCapabilitySnapshot) (cs : List ModelCapability)
    → (capability_findings p runtime cs ≡ []) ↔ All (IsCapable p runtime) cs
unfolding capability_findings
capability_findings_iff p runtime [] = (λ h. tt, λ h. refl)
capability_findings_iff p runtime (c ∷ cs) = (
  λ h.
      let (here, later) =
        append-eq-nil (support_findings p runtime c) (capability_findings p runtime cs) h in
      ((support_findings_iff p runtime c).0 here, (capability_findings_iff p runtime cs).0 later),
  λ h. rw ((support_findings_iff p runtime c).1 h.0) ((capability_findings_iff p runtime cs).1 h.1),
)

module _ (input : ModelRoutingInput) (r : ModelRoutingRequirements) (p : ModelProfile) where
  record StatusFits : Type 0 where
    not_disabled : p.status ≢ disabled
    experimental_allowed :
        p.status ≡ experimental
        → (r.allow_experimental ≡ true) × (input.work_order.risk_level ≢ RiskLevel.critical)
    not_blocked : contains r.blocked_provider_ids p.provider_id ≡ false
    class_reached : capability_rank r.required_capability_class ≤ capability_rank p.capability_class
    reasoning_reached : reasoning_rank r.minimum_reasoning_class ≤ reasoning_rank p.reasoning_class

  status_findings_iff : (status_findings p input r ≡ []) ↔ StatusFits
  unfolding status_findings
  status_findings_iff = (λ h. ground arith, λ h. ground arith)

  record TokensFit : Type 0 where
    runtime_proven : r.require_proven_runtime ≡ true → input.runtime.confidence ≡ proven
    window_holds : Holds p.context_window_tokens (tokens_needed r)
    reserve_fits : AtMost r.required_output_tokens p.max_output_tokens
    within_budget : tokens_needed r ≤ input.work_order.token_budget.hard_limit

  token_findings_iff : (token_findings p input r ≡ []) ↔ TokensFit
  unfolding token_findings
  token_findings_iff = (λ h. ground arith, λ h. ground arith)

  IsAdequate-of_findings : profile_findings p input r ≡ [] → IsAdequate input r p
  unfolding profile_findings
  IsAdequate-of_findings h =
      let (status, rest) = append-eq-nil (status_findings p input r) _ h in
      let (capabilities, tokens) =
        append-eq-nil (capability_findings p input.runtime r.required_capabilities)
          (token_findings p input r) rest in
      let s = status_findings_iff.0 status in
      let t = token_findings_iff.0 tokens in
      record {
        not_disabled = s.not_disabled;
        experimental_allowed = s.experimental_allowed;
        not_blocked = s.not_blocked;
        class_reached = s.class_reached;
        reasoning_reached = s.reasoning_reached;
        capable = (capability_findings_iff p input.runtime r.required_capabilities).0 capabilities;
        runtime_proven = t.runtime_proven;
        window_holds = t.window_holds;
        reserve_fits = t.reserve_fits;
        within_budget = t.within_budget;
      }

  findings_of_adequate : IsAdequate input r p → profile_findings p input r ≡ []
  unfolding profile_findings
  findings_of_adequate a =
      let status : StatusFits = record {
        not_disabled = a.not_disabled;
        experimental_allowed = a.experimental_allowed;
        not_blocked = a.not_blocked;
        class_reached = a.class_reached;
        reasoning_reached = a.reasoning_reached;
      } in
      let tokens : TokensFit = record {
        runtime_proven = a.runtime_proven;
        window_holds = a.window_holds;
        reserve_fits = a.reserve_fits;
        within_budget = a.within_budget;
      } in
      rw
        (
          status_findings_iff.1 status,
          (capability_findings_iff p input.runtime r.required_capabilities).1 a.capable,
        )
        (token_findings_iff.1 tokens)

  rejection_of_findings :
      (fs : List Finding)
      → profile_findings p input r ≡ fs
      → profile_rejection p input r ≡ none
      → fs ≡ []
  unfolding profile_rejection
  rejection_of_findings [] e h = refl
  rejection_of_findings (f ∷ fs) e h = cc (rw e at h)

  -- A profile is let through exactly when it is adequate: enabled or an experimental one that is
  -- allowed, its provider not blocked, its class and reasoning high enough, each required capability
  -- effective, and its window, its output and the budget large enough.
  pub profile_rejection-none_iff : (profile_rejection p input r ≡ none) ↔ IsAdequate input r p
  unfolding profile_rejection
  profile_rejection-none_iff = (
    λ h. IsAdequate-of_findings (rejection_of_findings (profile_findings p input r) refl h),
    λ a. rw (findings_of_adequate a),
  )
