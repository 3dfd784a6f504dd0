-- ===== src/Model/Requirements/Derive.antt =====
-- `deriveModelRequirements` of src/kernel/model-requirements.ts. The numbers of the source are
-- whole and not negative here, so `Math.floor` and `Math.max(0, ...)` leave them as they are;
-- `hardLimit * 0.25` rounded down is `hard_limit / 4`.
use Prim.Native.String.{String, compare as compare_text}
use Prim.Native.Nat.{Ordering}
use uads.Common.{
  ℕ, ◌+◌, ◌-◌, ◌/◌, min, max, Bool, true, false, not, ◌&&◌, ◌||◌, List, [], ◌∷◌, ◌++◌, Option, none,
  some, ltb, leb, eqb, if◌then◌else◌, length, get_elem?, to_lower_case, includes_one, join_words,
  ◌&◌, ◌==◌, string_eq, contains, dedupe, decimal,
}
use uads.Common.Int.{ℤ, pos, negsuc}
use uads.Common.Sort.{sort_by}
use uads.Kernel.Types.{
  RiskLevel, CapabilityClass, WorkOrder, risk_text, scope_text, capability_text, risk_eq,
}
use uads.Model.Types.{
  ReasoningClass, basic, standard, advanced, deep, ModelCapability, model_selection, tool_calling,
  structured_output, vision_input, ModelRoutingFailureSignals, ModelRoutingRequirements,
  ModelRoutingInput, ContextPack, capability_eq,
}
use uads.Model.Requirements.Floors.{
  capability_rank, class_order, quality_floor_for, minimum_reasoning_for, complexity_for,
  uncertainty_for,
}

abbrev pub no_signals : ModelRoutingFailureSignals
no_signals = record {
  repeated_distinct_failures = 0;
  loop_detected = false;
  unresolved_ambiguity = false;
  failed_architecture_review = false;
  explicit_reasons = [];
}

-- `?? `
abbrev pub or_default {ℓ} : {A : Type ℓ} → Option A → A → A
or_default none d = d
or_default (some a) d = a

abbrev one_if : Bool → ℕ
one_if true = 1
one_if false = 0

unfoldable pub escalation_count : ModelRoutingFailureSignals → ℕ
escalation_count f =
    f.repeated_distinct_failures
    + one_if f.loop_detected
    + one_if f.unresolved_ambiguity
    + one_if f.failed_architecture_review
    + length f.explicit_reasons

-- The class after the failure signals are counted: up to two steps up, never past `critical`.
unfoldable pub escalated_class : CapabilityClass → ModelRoutingFailureSignals → CapabilityClass
escalated_class floor failures =
    let count = escalation_count failures in
    let next_rank = min (length class_order - 1) (capability_rank floor + min 2 count) in
    if ltb 0 count
    then or_default (get_elem? class_order next_rank) CapabilityClass.critical
    else floor

abbrev note : Bool → String → List String → List String
note test reason reasons = if test then reasons ++ reason ∷ [] else reasons

-- `for (const reason of explicitReasons) if (!reasons.includes(reason)) reasons.push(reason);`
unfoldable pub add_missing : List String → List String → List String
add_missing reasons [] = reasons
add_missing reasons (r ∷ rs) = add_missing (note (not (contains reasons r)) r reasons) rs

unfoldable pub escalation_reasons : WorkOrder → ModelRoutingFailureSignals → List String
escalation_reasons order f =
    let (floor, quality) = quality_floor_for order in
    let raised = not (eqb (capability_rank (escalated_class floor f)) (capability_rank floor)) in
    let first = note raised "ESCALATION_SIGNAL_RAISED_FLOOR" quality in
    let repeated =
      (f.loop_detected || leb 2 f.repeated_distinct_failures)
      && not (contains first "REPEATED_FAILURE_ESCALATION") in
    let second = note repeated "REPEATED_FAILURE_ESCALATION" first in
    let third = note f.unresolved_ambiguity "UNRESOLVED_AMBIGUITY_ESCALATION" second in
    let fourth = note f.failed_architecture_review "ARCHITECTURE_REVIEW_ESCALATION" third in
    add_missing fourth f.explicit_reasons

-- Does the preference stand above what is required so far?
abbrev is_preferred : Option CapabilityClass → CapabilityClass → Bool
is_preferred none required = false
is_preferred (some c) required = ltb (capability_rank required) (capability_rank c)

unfoldable pub required_class : ModelRoutingInput → CapabilityClass
required_class input =
    let failures = or_default input.failure_signals no_signals in
    let escalated = escalated_class (quality_floor_for input.work_order).0 failures in
    if is_preferred input.preferred_capability_class escalated
    then or_default input.preferred_capability_class escalated
    else escalated

-- The words of the three regular expressions, their optional parts written out.
abbrev tool_words : List String
tool_words =
    "tool call" ∷ "tool-call" ∷ "toolcall" ∷ "execute tool" ∷ "execute a tool" ∷ "shell"
    ∷ "command execution" ∷ "browser automation" ∷ []

abbrev output_words : List String
output_words =
    "structured output" ∷ "json output" ∷ "schema output" ∷ "machine readable" ∷ "machine-readable"
    ∷ []

abbrev vision_words : List String
vision_words = "vision" ∷ "image" ∷ "screenshot" ∷ "visual input" ∷ []

unfoldable pub add_capability : List ModelCapability → Bool → ModelCapability → List ModelCapability
unfolding contains
add_capability capabilities wanted value =
    if wanted && not (contains capabilities value) then capabilities ++ value ∷ [] else capabilities

unfoldable pub required_capabilities_of : WorkOrder → List ModelCapability
required_capabilities_of order =
    let text =
      to_lower_case
        (order.objective & " " & join_words order.domains & " " & join_words order.quality_gates) in
    let tools = add_capability (model_selection ∷ []) (includes_one text tool_words) tool_calling in
    let output = add_capability tools (includes_one text output_words) structured_output in
    add_capability output (includes_one text vision_words) vision_input

abbrev pack_tokens : Option ContextPack → ℕ
pack_tokens none = 0
pack_tokens (some pack) = pack.estimated_tokens

unfoldable pub input_tokens_of : ModelRoutingInput → ℕ
input_tokens_of input = or_default input.estimated_input_tokens (pack_tokens input.context_pack)

unfoldable pub output_tokens_of : ModelRoutingInput → ℕ
output_tokens_of input =
    or_default input.required_output_tokens
      (min 4096 (max 512 (input.work_order.token_budget.hard_limit / 4)))

abbrev pub reasoning_text : ReasoningClass → String
reasoning_text basic = "basic"
reasoning_text standard = "standard"
reasoning_text advanced = "advanced"
reasoning_text deep = "deep"

-- The default order of `sort()` on texts.
abbrev pub text_order : String → String → ℤ
text_order a b = elim (compare_text a b) [
  | Ordering.lt ↦ negsuc 0
  | Ordering.eq ↦ pos 0
  | Ordering.gt ↦ pos 1
]

unfoldable pub derive_model_requirements : ModelRoutingInput → ModelRoutingRequirements
derive_model_requirements input =
    let order = input.work_order in
    let failures = or_default input.failure_signals no_signals in
    let escalated = escalated_class (quality_floor_for order).0 failures in
    let required = required_class input in
    let escalations =
      note (is_preferred input.preferred_capability_class escalated)
        "EXPLICIT_PREFERENCE_RAISED_FLOOR" (escalation_reasons order failures) in
    record {
      required_capability_class = required;
      required_capabilities = required_capabilities_of order;
      minimum_reasoning_class = minimum_reasoning_for required;
      estimated_input_tokens = input_tokens_of input;
      required_output_tokens = output_tokens_of input;
      require_proven_runtime = true;
      allow_experimental = input.allow_experimental && not (order.risk_level == RiskLevel.critical);
      explicit_preference_floor = input.preferred_capability_class;
      blocked_provider_ids = sort_by text_order (dedupe input.blocked_provider_ids);
      complexity = complexity_for order;
      uncertainty = uncertainty_for order;
      reasons =
          ("risk=" & risk_text order.risk_level)
          ∷ ("scope=" & scope_text order.scope_class)
          ∷ ("quality-floor=" & capability_text required)
          ∷ ("reasoning-floor=" & reasoning_text (minimum_reasoning_for required))
          ∷ ("estimated-input=" & decimal (input_tokens_of input))
          ∷ escalations;
    }
