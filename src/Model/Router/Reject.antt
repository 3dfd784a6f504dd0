-- ===== src/Model/Router/Reject.antt =====
-- `profileRejection` of src/kernel/model-router.ts: why a profile may not run a work order. Each
-- finding is a reason code with its text, in the order in which the source pushes them.
use Prim.Native.String.{String}
use uads.Common.{
  ℕ, ◌+◌, Bool, true, false, not, ◌&&◌, List, [], ◌∷◌, ◌++◌, Option, none, some, map, ltb, ◌&◌,
  ◌==◌, string_eq, contains, dedupe, decimal,
}
use uads.Kernel.Types.{RiskLevel, capability_text, risk_eq}
use uads.Model.Types.{
  ModelStatus, enabled, disabled, experimental, ModelCapability, model_selection, tool_calling,
  structured_output, prompt_cache, explicit_cache, persistent_context, parallel_agents,
  usage_telemetry, vision_input, Confidence, proven, ModelProfile, ModelRoutingRequirements,
  ModelRejection, ModelRoutingInput, capability_eq, RuntimeCapabilitySnapshot,
}
use uads.Model.Requirements.Floors.{capability_rank, reasoning_rank}
use uads.Model.Requirements.Derive.{reasoning_text}
use uads.Model.Runtime.{model_supports, effective_capability}

abbrev pub Finding : Type 0
Finding = String × String

abbrev pub when : Bool → String → String → List Finding
when true code reason = (code, reason) ∷ []
when false code reason = []

abbrev pub is_disabled : ModelStatus → Bool
is_disabled disabled = true
is_disabled enabled = false
is_disabled experimental = false

abbrev pub is_experimental : ModelStatus → Bool
is_experimental experimental = true
is_experimental enabled = false
is_experimental disabled = false

abbrev pub is_proven : Confidence → Bool
is_proven proven = true
is_proven Confidence.declared = false
is_proven Confidence.unknown = false

-- The keys as they stand in texts.
abbrev capability_name : ModelCapability → String
capability_name model_selection = "modelSelection"
capability_name tool_calling = "toolCalling"
capability_name structured_output = "structuredOutput"
capability_name prompt_cache = "promptCache"
capability_name explicit_cache = "explicitCache"
capability_name persistent_context = "persistentContext"
capability_name ModelCapability.subagents = "subagents"
capability_name parallel_agents = "parallelAgents"
capability_name usage_telemetry = "usageTelemetry"
capability_name vision_input = "visionInput"

unfoldable pub capability_reason_code : ModelCapability → String
capability_reason_code tool_calling = "TOOL_CALLING_UNAVAILABLE"
capability_reason_code structured_output = "STRUCTURED_OUTPUT_UNAVAILABLE"
capability_reason_code vision_input = "VISION_UNAVAILABLE"
capability_reason_code prompt_cache = "PROMPT_CACHE_UNAVAILABLE"
capability_reason_code explicit_cache = "EXPLICIT_CACHE_UNAVAILABLE"
capability_reason_code persistent_context = "PERSISTENT_CONTEXT_UNAVAILABLE"
capability_reason_code ModelCapability.subagents = "SUBAGENTS_UNAVAILABLE"
capability_reason_code parallel_agents = "PARALLEL_AGENTS_UNAVAILABLE"
capability_reason_code usage_telemetry = "USAGE_TELEMETRY_UNAVAILABLE"
capability_reason_code model_selection = "RUNTIME_CAPABILITY_UNAVAILABLE"

-- `profileSupports`: for the two host capabilities the key is absent, so `=== true` fails.
abbrev pub profile_supports : ModelProfile → ModelCapability → Bool
profile_supports profile capability = model_supports profile capability

-- One round of the loop over the required capabilities.
unfoldable pub support_findings :
    ModelProfile → RuntimeCapabilitySnapshot → ModelCapability → List Finding
support_findings profile runtime capability =
    when (not (capability == model_selection) && not (profile_supports profile capability))
      (capability_reason_code capability) ("profile does not support " & capability_name capability)
    ++ when (not (effective_capability profile runtime capability)) "RUNTIME_CAPABILITY_UNAVAILABLE"
        ("runtime cannot prove effective " & capability_name capability)

unfoldable pub capability_findings :
    ModelProfile → RuntimeCapabilitySnapshot → List ModelCapability → List Finding
capability_findings profile runtime [] = []
capability_findings profile runtime (capability ∷ rest) =
    support_findings profile runtime capability ++ capability_findings profile runtime rest

abbrev window_findings : Option ℕ → ℕ → List Finding
window_findings none required =
    when (ltb 0 required) "CONTEXT_WINDOW_TOO_SMALL"
      "unknown context window is not sufficient for conservative high-volume routing"
window_findings (some window) required =
    when (ltb window required) "CONTEXT_WINDOW_TOO_SMALL"
      ("context window " & decimal window & " is below required " & decimal required)

abbrev reserve_findings : Option ℕ → ℕ → List Finding
reserve_findings none required = []
reserve_findings (some most) required =
    when (ltb most required) "OUTPUT_RESERVE_TOO_SMALL"
      ("max output " & decimal most & " is below required " & decimal required)

abbrev pub tokens_needed : ModelRoutingRequirements → ℕ
tokens_needed r = r.estimated_input_tokens + r.required_output_tokens

-- The findings up to the capabilities: status, policy, class and reasoning.
unfoldable pub status_findings :
    ModelProfile → ModelRoutingInput → ModelRoutingRequirements → List Finding
status_findings profile input requirements =
    when (is_disabled profile.status) "PROFILE_DISABLED" "profile is disabled"
    ++ (when (is_experimental profile.status && not requirements.allow_experimental)
          "PROFILE_EXPERIMENTAL_NOT_ALLOWED"
          "experimental profiles require explicit policy eligibility"
        ++ (when
              (is_experimental profile.status && input.work_order.risk_level == RiskLevel.critical)
              "PROFILE_EXPERIMENTAL_NOT_ALLOWED" "experimental profile cannot satisfy CRITICAL work"
            ++ (when (contains requirements.blocked_provider_ids profile.provider_id)
                  "POLICY_BLOCKED" "provider is blocked by routing policy"
                ++ (when
                      (ltb (capability_rank profile.capability_class)
                        (capability_rank requirements.required_capability_class))
                      "CAPABILITY_CLASS_TOO_LOW"
                      ("profile class "
                        & capability_text profile.capability_class
                        & " is below "
                        & capability_text requirements.required_capability_class)
                    ++ when
                        (ltb (reasoning_rank profile.reasoning_class)
                          (reasoning_rank requirements.minimum_reasoning_class))
                        "REASONING_CLASS_TOO_LOW"
                        ("reasoning class "
                          & reasoning_text profile.reasoning_class
                          & " is below "
                          & reasoning_text requirements.minimum_reasoning_class)))))

-- The findings after the capabilities: provenance and tokens.
unfoldable pub token_findings :
    ModelProfile → ModelRoutingInput → ModelRoutingRequirements → List Finding
token_findings profile input requirements =
    let required = tokens_needed requirements in
    when (requirements.require_proven_runtime && not (is_proven input.runtime.confidence))
      "NO_PROVEN_CAPABILITY" "required runtime capabilities are not proven"
    ++ (window_findings profile.context_window_tokens required
        ++ (reserve_findings profile.max_output_tokens requirements.required_output_tokens
            ++ when (ltb input.work_order.token_budget.hard_limit required)
                "HARD_TOKEN_BUDGET_INCOMPATIBLE"
                ("required input plus output "
                  & decimal required
                  & " exceeds hard budget "
                  & decimal input.work_order.token_budget.hard_limit)))

unfoldable pub profile_findings :
    ModelProfile → ModelRoutingInput → ModelRoutingRequirements → List Finding
profile_findings profile input requirements =
    status_findings profile input requirements
    ++ (capability_findings profile input.runtime requirements.required_capabilities
        ++ token_findings profile input requirements)

abbrev rejection : String → List Finding → ModelRejection
rejection profile_id findings = record {
  profile_id = profile_id;
  reason_codes = dedupe (map (λ f. f.0) findings);
  reasons = map (λ f. f.1) findings;
}

abbrev rejection_of : String → List Finding → Option ModelRejection
rejection_of profile_id [] = none
rejection_of profile_id (f ∷ fs) = some (rejection profile_id (f ∷ fs))

unfoldable pub profile_rejection :
    ModelProfile → ModelRoutingInput → ModelRoutingRequirements → Option ModelRejection
profile_rejection profile input requirements =
    rejection_of profile.profile_id (profile_findings profile input requirements)
