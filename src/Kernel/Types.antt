-- ===== src/Kernel/Types.antt =====
-- src/kernel/types.ts: the closed unions, the intake, what the classifiers read of the repository
-- map, and the work order. A union of string literals is a data type with a constructor for each.
-- Constant `schema` and `schemaVersion` tags carry no information and are left out; so are the
-- optional digests of the specialist selection, which no modelled operation reads.
use Prim.Native.String.{String}
use uads.Common.{ℕ, ◌≡◌, ◌↔◌, Bool, true, List, Option, arith, eqb, Eq}

pub data ScopeClass : Type 0 where
  trivial local cross_cutting architectural : ScopeClass

pub data RiskLevel : Type 0 where
  low medium high critical : RiskLevel

pub data ContextRadius : Type 0 where
  c0 c1 c2 c3 c4 c5 : ContextRadius

pub data CapabilityClass : Type 0 where
  economy balanced strong critical : CapabilityClass

pub data IntakeClassifier : Type 0 where
  host_structured fallback_text : IntakeClassifier

pub data WorkOrderStatus : Type 0 where
  draft planned active blocked completed cancelled : WorkOrderStatus

pub data Phase : Type 0 where
  intake classify plan implement verify review stopped : Phase

pub data CheckpointStatus : Type 0 where
  pending in_progress blocked completed failed : CheckpointStatus

-- `===` on the unions, by the place of a literal in its declaration.
abbrev pub scope_index : ScopeClass → ℕ
scope_index trivial = 0
scope_index local = 1
scope_index cross_cutting = 2
scope_index architectural = 3

abbrev pub risk_index : RiskLevel → ℕ
risk_index low = 0
risk_index medium = 1
risk_index high = 2
risk_index RiskLevel.critical = 3

abbrev pub radius_index : ContextRadius → ℕ
radius_index c0 = 0
radius_index c1 = 1
radius_index c2 = 2
radius_index c3 = 3
radius_index c4 = 4
radius_index c5 = 5

pub scope_eq_iff : (a b : ScopeClass) → (eqb (scope_index a) (scope_index b) ≡ true) ↔ (a ≡ b)
scope_eq_iff a b = ground arith

pub risk_eq_iff : (a b : RiskLevel) → (eqb (risk_index a) (risk_index b) ≡ true) ↔ (a ≡ b)
risk_eq_iff a b = ground arith

instance abbrev pub scope_eq : Eq ScopeClass
scope_eq = record { beq = λ a b. eqb (scope_index a) (scope_index b); beq_iff = scope_eq_iff }

instance abbrev pub risk_eq : Eq RiskLevel
risk_eq = record { beq = λ a b. eqb (risk_index a) (risk_index b); beq_iff = risk_eq_iff }

pub record NormalizedIntake : Type 0 where
  pub objective : String
  pub constraints : List String
  pub requested_artifacts : List String
  pub in_scope : List String
  pub out_of_scope : List String
  pub acceptance_criteria : List String
  pub domain_signals : List String
  pub risk_signals : List String
  pub destructive_signals : List String
  pub affected_areas : List String
  pub uncertainties : List String
  pub approved_boundaries : List String
  pub classifier : IntakeClassifier

-- The fields of `RepositoryMap.signals` that the risk classifier reads; a missing key is falsy.
pub record RepositorySignals : Type 0 where
  pub web3 : Bool
  pub migrations : Bool
  pub database : Bool

pub record TokenBudget : Type 0 where
  pub soft_limit : ℕ
  pub hard_limit : ℕ
  pub capability_class : CapabilityClass

pub record WorkOrder : Type 0 where
  pub work_order_id : String
  pub project_id : String
  pub title : String
  pub objective : String
  pub status : WorkOrderStatus
  pub scope_class : ScopeClass
  pub included_scope : List String
  pub out_of_scope : List String
  pub recommendations : List String
  pub risk_level : RiskLevel
  pub risk_reasons : List String
  pub domains : List String
  pub affected_areas : List String
  pub specialists : List String
  pub assurance_reviewers : List String
  pub quality_gates : List String
  pub context_radius : ContextRadius
  pub token_budget : TokenBudget
  pub dependencies : List String
  pub acceptance_criteria : List String
  pub required_evidence : List String
  pub stop_conditions : List String
  pub routing_decision_id : String
  pub safe_autonomous : List String  -- `autonomyBoundary.safeAutonomous`
  pub requires_approval : List String  -- `autonomyBoundary.requiresApproval`
  pub next_action : String

-- The literals as they stand in texts.
abbrev pub risk_text : RiskLevel → String
risk_text low = "LOW"
risk_text medium = "MEDIUM"
risk_text high = "HIGH"
risk_text RiskLevel.critical = "CRITICAL"

abbrev pub scope_text : ScopeClass → String
scope_text trivial = "trivial"
scope_text local = "local"
scope_text cross_cutting = "cross-cutting"
scope_text architectural = "architectural"

abbrev pub capability_text : CapabilityClass → String
capability_text economy = "economy"
capability_text balanced = "balanced"
capability_text strong = "strong"
capability_text CapabilityClass.critical = "critical"

-- A checkpoint; the ids of a plan are null before there is one.
pub record Checkpoint : Type 0 where
  pub checkpoint_id : String
  pub project_id : String
  pub work_order_id : Option String
  pub routing_decision_id : Option String
  pub created_at : String
  pub updated_at : String
  pub phase : Phase
  pub status : CheckpointStatus
  pub completed_steps : List String
  pub next_action : String
  pub blockers : List String
  pub evidence_refs : List String
  pub repository_map_digest : Option String
  pub context_plan_ref : Option String
  pub resume_cursor : String

-- A digest that is missing or null is `none`, as every reader takes it.
pub record ContextPlan : Type 0 where
  pub radius : ContextRadius
  pub reason : String
  pub candidate_areas : List String
  pub reusable_artifacts : List String
  pub context_pack_id : Option String
  pub impact_report_id : Option String
  pub index_digest : Option String

abbrev pub implementer_role : String
implementer_role = "implementation-agent"

abbrev pub independent_reviewer_role : String
independent_reviewer_role = "independent-reviewer"

-- A routing decision, less the optional ids and digests of the specialist selection. A reason and
-- what it is for is a pair, the id first.
pub record RoutingDecision : Type 0 where
  pub routing_decision_id : String
  pub project_id : String
  pub created_at : String
  pub scope_class : ScopeClass
  pub scope_reasons : List String
  pub risk_level : RiskLevel
  pub risk_reasons : List String
  pub domains : List (String × String)
  pub specialists : List String
  pub assurance_specialists : List String
  pub gates : List (String × String)
  pub context_radius : ContextRadius
  pub context_reason : String
  pub capability_class : CapabilityClass
  pub order_constraints : List String
  pub stop_conditions : List String
  pub warnings : List String
