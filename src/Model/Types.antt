-- ===== src/Model/Types.antt =====
-- src/kernel/model-types.ts. Constant `schema` tags are left out; the schema versions stay, since
-- the router compares them. Token counts are natural numbers.
use Prim.Native.String.{String}
use uads.Common.{ℕ, ◌≡◌, ◌↔◌, Bool, true, List, Option, arith, eqb, Eq}
use uads.Kernel.Types.{CapabilityClass, RiskLevel, ScopeClass, WorkOrder}

pub data ModelStatus : Type 0 where
  enabled disabled experimental : ModelStatus

pub data ReasoningClass : Type 0 where
  basic standard advanced deep : ReasoningClass

-- `RelativeCostClass` and `RelativeLatencyClass` have the same literals.
pub data RelativeClass : Type 0 where
  very_low low medium high very_high unknown : RelativeClass

pub data ModelProfileSource : Type 0 where
  builtin_fixture user_config adapter imported : ModelProfileSource

-- `boolean | "unknown"`
pub data CapabilityValue : Type 0 where
  known : Bool → CapabilityValue
  unknown : CapabilityValue

pub data ModelCapability : Type 0 where
  model_selection tool_calling structured_output prompt_cache explicit_cache : ModelCapability
  persistent_context subagents parallel_agents usage_telemetry vision_input : ModelCapability

pub data ModelRole : Type 0 where
  implementation review testing assurance : ModelRole

pub data ModelRoutingStatus : Type 0 where
  selected blocked : ModelRoutingStatus

pub data ModelSelectionMode : Type 0 where
  router host_managed : ModelSelectionMode

pub data Complexity : Type 0 where
  trivial moderate complex critical : Complexity

pub data Confidence : Type 0 where
  proven declared unknown : Confidence

pub data RoleStatus : Type 0 where
  selected host_managed blocked : RoleStatus

pub data RoleDispatch : Type 0 where
  subagents role_cycling : RoleDispatch

abbrev pub capability_index : ModelCapability → ℕ
capability_index model_selection = 0
capability_index tool_calling = 1
capability_index structured_output = 2
capability_index prompt_cache = 3
capability_index explicit_cache = 4
capability_index persistent_context = 5
capability_index ModelCapability.subagents = 6
capability_index parallel_agents = 7
capability_index usage_telemetry = 8
capability_index vision_input = 9

pub capability_eq_iff :
    (a b : ModelCapability) → (eqb (capability_index a) (capability_index b) ≡ true) ↔ (a ≡ b)
capability_eq_iff a b = ground arith

instance abbrev pub capability_eq : Eq ModelCapability
capability_eq = record {
  beq = λ a b. eqb (capability_index a) (capability_index b);
  beq_iff = capability_eq_iff;
}

pub record ModelSupports : Type 0 where
  pub tool_calling : Bool
  pub structured_output : Bool
  pub vision : Bool
  pub prompt_cache : Bool
  pub explicit_cache : Bool
  pub persistent_context : Bool
  pub usage_telemetry : Bool

pub record ModelProfile : Type 0 where
  pub profile_id : String
  pub provider_id : String
  pub model_id : String
  pub status : ModelStatus
  pub capability_class : CapabilityClass
  pub reasoning_class : ReasoningClass
  pub context_window_tokens : Option ℕ
  pub max_output_tokens : Option ℕ
  pub relative_cost_class : RelativeClass
  pub relative_latency_class : RelativeClass
  pub supports : ModelSupports
  pub max_concurrency : Option ℕ  -- `constraints.maxConcurrency`, absent or null is `none`
  pub notes : Option String
  pub source : ModelProfileSource
  pub adapter_id : Option String
  pub adapter_version : Option String
  pub profile_digest : String

pub record ModelProfileRegistry : Type 0 where
  pub schema_version : String
  pub profiles : List ModelProfile
  pub registry_digest : String

pub record RuntimeCapabilities : Type 0 where
  pub model_selection : CapabilityValue
  pub tool_calling : CapabilityValue
  pub structured_output : CapabilityValue
  pub prompt_cache : CapabilityValue
  pub explicit_cache : CapabilityValue
  pub persistent_context : CapabilityValue
  pub subagents : CapabilityValue
  pub parallel_agents : CapabilityValue
  pub usage_telemetry : CapabilityValue
  pub vision_input : CapabilityValue

pub record RuntimeCapabilitySnapshot : Type 0 where
  pub schema_version : String
  pub runtime_id : String
  pub adapter_id : String
  pub adapter_version : String
  pub runtime_version : Option String
  pub capabilities : RuntimeCapabilities
  pub confidence : Confidence  -- `provenance.confidence`
  pub identity_digest : String

pub record ModelRoutingRequirements : Type 0 where
  pub required_capability_class : CapabilityClass
  pub required_capabilities : List ModelCapability
  pub minimum_reasoning_class : ReasoningClass
  pub estimated_input_tokens : ℕ
  pub required_output_tokens : ℕ
  pub require_proven_runtime : Bool
  pub allow_experimental : Bool
  pub explicit_preference_floor : Option CapabilityClass
  pub blocked_provider_ids : List String
  pub complexity : Complexity
  pub uncertainty : ℕ
  pub reasons : List String

pub record ModelCandidateSummary : Type 0 where
  pub profile_id : String
  pub provider_id : String
  pub model_id : String
  pub capability_class : CapabilityClass
  pub reasoning_class : ReasoningClass
  pub relative_cost_class : RelativeClass
  pub relative_latency_class : RelativeClass

pub record ModelRejection : Type 0 where
  pub profile_id : String
  pub reason_codes : List String
  pub reasons : List String

pub record ModelRoleSelection : Type 0 where
  pub role : ModelRole
  pub profile_id : Option String
  pub provider_id : Option String
  pub model_id : Option String
  pub status : RoleStatus
  pub reason_codes : List String

pub record ModelExecutionStrategy : Type 0 where
  pub parallel : Bool
  pub role_dispatch : RoleDispatch
  pub usage_telemetry_available : Option Bool

pub record Escalation : Type 0 where
  pub floor : CapabilityClass
  pub current_tier : CapabilityClass
  pub reason_codes : List String

pub record CacheHints : Type 0 where
  pub static_layer_digest : Option String
  pub semi_stable_layer_digest : Option String
  pub dynamic_layer_digest : Option String
  pub prompt_cache_usable : Bool
  pub explicit_cache_usable : Bool
  pub persistent_context_usable : Bool

pub record PlanBudget : Type 0 where
  pub hard_limit : ℕ
  pub soft_limit : ℕ
  pub estimated_input_tokens : ℕ
  pub required_output_tokens : ℕ
  pub selected_context_window_tokens : Option ℕ

pub record ModelExecutionPlan : Type 0 where
  pub plan_id : String
  pub project_id : String
  pub work_order_id : String
  pub work_order_digest : String
  pub change_digest : Option String
  pub risk : RiskLevel
  pub scope_class : ScopeClass
  pub complexity : Complexity
  pub uncertainty : ℕ
  pub required_capability_class : CapabilityClass
  pub required_capabilities : List ModelCapability
  pub runtime_identity_digest : String
  pub registry_digest : String
  pub policy_digest : String
  pub candidates : List ModelCandidateSummary
  pub eligible_candidates : List String
  pub rejections : List ModelRejection
  pub selected_profile_id : Option String
  pub selected_provider_id : Option String
  pub selected_model_id : Option String
  pub role_selections : List ModelRoleSelection
  pub selection_reason_codes : List String
  pub fallback_profile_ids : List String
  pub escalation : Escalation
  pub cache_hints : CacheHints
  pub execution : ModelExecutionStrategy
  pub budget : PlanBudget
  pub selection_mode : ModelSelectionMode
  pub status : ModelRoutingStatus
  pub blocked_reason : Option String

pub record ModelRoutingFailureSignals : Type 0 where
  pub repeated_distinct_failures : ℕ  -- absent is 0, as every reader takes it
  pub loop_detected : Bool
  pub unresolved_ambiguity : Bool
  pub failed_architecture_review : Bool
  pub explicit_reasons : List String

-- The fields of `ContextPack` (intelligence-types.ts) that routing reads.
pub record ContextPack : Type 0 where
  pub estimated_tokens : ℕ
  pub static_layer_digest : Option String
  pub semi_stable_layer_digest : Option String
  pub dynamic_layer_digest : Option String

-- `ModelRoutingInput` of model-router.ts; an absent or null field is `none`, an absent flag is false
-- and an absent list is empty, as every reader takes them.
pub record ModelRoutingInput : Type 0 where
  pub work_order : WorkOrder
  pub project_id : Option String
  pub registry : ModelProfileRegistry
  pub runtime : RuntimeCapabilitySnapshot
  pub context_pack : Option ContextPack
  pub change_digest : Option String
  pub failure_signals : Option ModelRoutingFailureSignals
  pub previous_plan : Option ModelExecutionPlan
  pub allow_experimental : Bool
  pub preferred_capability_class : Option CapabilityClass
  pub blocked_provider_ids : List String
  pub estimated_input_tokens : Option ℕ
  pub required_output_tokens : Option ℕ
