-- ===== src/Model/Runtime.antt =====
-- src/kernel/model-runtime.ts: which capabilities a runtime owns, and when one is effective.
use uads.Common.{
  ◌≡◌, ◌↔◌, ◌⊎◌, Bool, true, false, ◌&&◌, List, [], ◌∷◌, arith, contains, map, if◌then◌else◌,
}
use uads.Model.Types.{
  ModelCapability, model_selection, tool_calling, structured_output, prompt_cache, explicit_cache,
  persistent_context, parallel_agents, usage_telemetry, vision_input, ModelProfile,
  RuntimeCapabilities, RuntimeCapabilitySnapshot, CapabilityValue, known, capability_eq,
}

abbrev pub runtime_capability_keys : List ModelCapability
runtime_capability_keys =
    model_selection ∷ tool_calling ∷ structured_output ∷ prompt_cache ∷ explicit_cache
    ∷ persistent_context ∷ ModelCapability.subagents ∷ parallel_agents ∷ usage_telemetry
    ∷ vision_input ∷ []

abbrev pub host_runtime_only : List ModelCapability
host_runtime_only = ModelCapability.subagents ∷ parallel_agents ∷ []

abbrev pub router_runtime_control : List ModelCapability
router_runtime_control = model_selection ∷ []

pub data CapabilityOwnership : Type 0 where
  host_runtime model_runtime_intersection router_runtime : CapabilityOwnership

unfoldable pub capability_ownership : ModelCapability → CapabilityOwnership
unfolding contains
capability_ownership name =
    if contains host_runtime_only name
    then host_runtime
    else if contains router_runtime_control name
    then router_runtime
    else model_runtime_intersection

-- `supports[name] ?? false`: the two host capabilities are no key of `ModelSupports`.
unfoldable pub model_supports : ModelProfile → ModelCapability → Bool
model_supports profile model_selection = true
model_supports profile vision_input = profile.supports.vision
model_supports profile tool_calling = profile.supports.tool_calling
model_supports profile structured_output = profile.supports.structured_output
model_supports profile prompt_cache = profile.supports.prompt_cache
model_supports profile explicit_cache = profile.supports.explicit_cache
model_supports profile persistent_context = profile.supports.persistent_context
model_supports profile usage_telemetry = profile.supports.usage_telemetry
model_supports profile ModelCapability.subagents = false
model_supports profile parallel_agents = false

abbrev pub runtime_value : RuntimeCapabilities → ModelCapability → CapabilityValue
runtime_value c model_selection = c.model_selection
runtime_value c tool_calling = c.tool_calling
runtime_value c structured_output = c.structured_output
runtime_value c prompt_cache = c.prompt_cache
runtime_value c explicit_cache = c.explicit_cache
runtime_value c persistent_context = c.persistent_context
runtime_value c ModelCapability.subagents = c.subagents
runtime_value c parallel_agents = c.parallel_agents
runtime_value c usage_telemetry = c.usage_telemetry
runtime_value c vision_input = c.vision_input

-- `value === true`
abbrev pub is_true : CapabilityValue → Bool
is_true (known b) = b
is_true CapabilityValue.unknown = false

abbrev by_owner : CapabilityOwnership → Bool → Bool → Bool
by_owner host_runtime proves supports = proves
by_owner router_runtime proves supports = proves
by_owner model_runtime_intersection proves supports = supports && proves

unfoldable pub effective_capability :
    ModelProfile → RuntimeCapabilitySnapshot → ModelCapability → Bool
unfolding capability_ownership model_supports
effective_capability profile runtime name =
    let runtime_proves = is_true (runtime_value runtime.capabilities name) in
    by_owner (capability_ownership name) runtime_proves (model_supports profile name)

-- `Object.fromEntries(keys.map(...))`, as the list of entries.
pub effective_capabilities :
    ModelProfile → RuntimeCapabilitySnapshot → List (ModelCapability × Bool)
effective_capabilities profile runtime =
    map (λ key. (key, effective_capability profile runtime key)) runtime_capability_keys

-- No capability is effective unless the runtime proves it; what the model and the runtime share is
-- effective exactly when both have it; agents and model selection are the runtime's alone.
pub effective_capability_iff :
    (profile : ModelProfile) (runtime : RuntimeCapabilitySnapshot) (name : ModelCapability)
    → (effective_capability profile runtime name ≡ true) ↔ (
        (runtime_value runtime.capabilities name ≡ known true)
        × ((model_supports profile name ≡ true) ⊎ (contains host_runtime_only name ≡ true)))
unfolding effective_capability contains
effective_capability_iff profile runtime name = ground arith
