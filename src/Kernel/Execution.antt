-- ===== src/Kernel/Execution.antt =====
-- src/kernel/execution-types.ts: the run, its packets and the change set. The records of evidence
-- and reviews are in Gates/Records. An optional or nullable field is an `Option`.
use Prim.Native.String.{String}
use uads.Common.{ℕ, ◌≡◌, ◌↔◌, Bool, true, List, Option, arith, eqb, Eq}
use uads.Kernel.Types.{ContextRadius, RiskLevel}
use uads.Model.Types.{ModelExecutionStrategy, ModelSelectionMode}

pub data ExecutionPhase : Type 0 where
  implement verify review stopped : ExecutionPhase

pub data ExecutionStatus : Type 0 where
  ready in_progress correction_needed blocked completed failed : ExecutionStatus

pub data ScopeClassification : Type 0 where
  in_scope supporting out_of_scope sensitive : ScopeClassification

abbrev pub execution_phase_index : ExecutionPhase → ℕ
execution_phase_index implement = 0
execution_phase_index verify = 1
execution_phase_index review = 2
execution_phase_index stopped = 3

abbrev pub execution_status_index : ExecutionStatus → ℕ
execution_status_index ready = 0
execution_status_index in_progress = 1
execution_status_index correction_needed = 2
execution_status_index blocked = 3
execution_status_index completed = 4
execution_status_index failed = 5

abbrev pub classification_index : ScopeClassification → ℕ
classification_index in_scope = 0
classification_index supporting = 1
classification_index out_of_scope = 2
classification_index sensitive = 3

pub execution_phase_eq_iff :
    (a b : ExecutionPhase)
    → (eqb (execution_phase_index a) (execution_phase_index b) ≡ true) ↔ (a ≡ b)
execution_phase_eq_iff a b = ground arith

pub execution_status_eq_iff :
    (a b : ExecutionStatus)
    → (eqb (execution_status_index a) (execution_status_index b) ≡ true) ↔ (a ≡ b)
execution_status_eq_iff a b = ground arith

pub classification_eq_iff :
    (a b : ScopeClassification)
    → (eqb (classification_index a) (classification_index b) ≡ true) ↔ (a ≡ b)
classification_eq_iff a b = ground arith

instance abbrev pub execution_phase_eq : Eq ExecutionPhase
execution_phase_eq = record {
  beq = λ a b. eqb (execution_phase_index a) (execution_phase_index b);
  beq_iff = execution_phase_eq_iff;
}

instance abbrev pub execution_status_eq : Eq ExecutionStatus
execution_status_eq = record {
  beq = λ a b. eqb (execution_status_index a) (execution_status_index b);
  beq_iff = execution_status_eq_iff;
}

instance abbrev pub classification_eq : Eq ScopeClassification
classification_eq = record {
  beq = λ a b. eqb (classification_index a) (classification_index b);
  beq_iff = classification_eq_iff;
}

pub record ExecutionBaseline : Type 0 where
  pub git_head : Option String
  pub dirty : Bool
  pub captured_at : String

pub record ChangedFile : Type 0 where
  pub path : String
  pub classification : ScopeClassification
  pub reason : String

-- A changed file whose classification is `out_of_scope` or `sensitive`.
abbrev pub ScopeViolation : Type 0
ScopeViolation = ChangedFile

pub record ChangeSet : Type 0 where
  pub digest : String
  pub files : List ChangedFile
  pub violations : List ScopeViolation

pub record ContextExpansion : Type 0 where
  pub from : ContextRadius
  pub to : ContextRadius
  pub reason : String
  pub at_time : String  -- `at`

pub record ExecutionRun : Type 0 where
  pub execution_run_id : String
  pub project_id : String
  pub work_order_id : String
  pub routing_decision_id : String
  pub created_at : String
  pub updated_at : String
  pub attempt : ℕ
  pub phase : ExecutionPhase
  pub status : ExecutionStatus
  pub baseline : ExecutionBaseline
  pub context_radius : ContextRadius
  pub context_candidates : List String
  pub implementer_role : String
  pub implementer_session_id : Option String
  pub required_reviewers : List String
  pub selected_gates : List String
  pub current_change_digest : Option String
  pub reviewed_change_digest : Option String
  pub changed_files : List String
  pub scope_violations : List ScopeViolation
  pub evidence_refs : List String
  pub review_refs : List String
  pub blockers : List String
  pub next_action : String
  pub expansion_history : List ContextExpansion
  pub context_pack_id : Option String
  pub impact_report_id : Option String
  pub index_digest : Option String
  pub model_plan_id : Option String
  pub selected_profile_id : Option String
  pub selected_provider_id : Option String
  pub selected_model_id : Option String
  pub selection_mode : Option ModelSelectionMode
  pub model_execution_strategy : Option ModelExecutionStrategy

-- The packet for the host; the specialist selection's ids and assignments, which it copies from the
-- work order, are left out with these.
pub record ExecutionPacket : Type 0 where
  pub execution_run_id : String
  pub work_order_id : String
  pub objective : String
  pub included_scope : List String
  pub out_of_scope : List String
  pub risk_level : RiskLevel
  pub domains : List String
  pub context_radius : ContextRadius
  pub context_candidates : List String
  pub specialists : List String
  pub assurance_reviewers : List String
  pub selected_gates : List String
  pub acceptance_criteria : List String
  pub required_evidence : List String
  pub safe_autonomous_actions : List String
  pub approval_gated_actions : List String
  pub stop_conditions : List String
  pub baseline_git_head : Option String
  pub next_action : String
  pub context_pack_id : Option String
  pub impact_report_id : Option String
  pub index_digest : Option String
  pub model_plan_id : Option String
  pub selected_profile_id : Option String
  pub selected_provider_id : Option String
  pub selected_model_id : Option String
  pub selection_mode : ModelSelectionMode
  pub model_execution_strategy : Option ModelExecutionStrategy
