-- ===== src/Cost/Types.antt =====
-- The records of src/kernel/cost-types.ts, and the store they are kept in. A patch,
-- `Partial<CostLedger>`, has an `Option` for each field that it may set; of a field that may be
-- null it is an `Option` of an `Option`.
use Prim.Native.String.{String}
use uads.Common.{ℕ, Bool, List, Option, none}

pub data BudgetStatus : Type 0 where
  ok soft_warning hard_blocked : BudgetStatus

pub data GovernorOutcome : Type 0 where
  allow warn block reuse : GovernorOutcome

pub record CostLedger : Type 0 where
  pub project_id : String
  pub work_order_id : Option String
  pub execution_run_id : Option String
  pub estimated_context_tokens : ℕ
  pub estimated_diagnostic_tokens : ℕ
  pub context_expansions : ℕ
  pub c5_uses : ℕ
  pub tool_executions : ℕ
  pub gate_executions : ℕ
  pub gate_cache_hits : ℕ
  pub gate_cache_misses : ℕ
  pub evidence_reuse_count : ℕ
  pub avoided_tool_executions : ℕ
  pub full_repository_scans : ℕ
  pub agent_calls_reported : Option ℕ
  pub model_capability_class : Option String
  pub soft_budget : Option ℕ
  pub hard_budget : Option ℕ
  pub budget_status : BudgetStatus
  pub updated_at : String

pub record LedgerPatch : Type 0 where
  pub work_order_id : Option (Option String)
  pub execution_run_id : Option (Option String)
  pub estimated_context_tokens : Option ℕ
  pub estimated_diagnostic_tokens : Option ℕ
  pub context_expansions : Option ℕ
  pub c5_uses : Option ℕ
  pub tool_executions : Option ℕ
  pub gate_executions : Option ℕ
  pub gate_cache_hits : Option ℕ
  pub gate_cache_misses : Option ℕ
  pub evidence_reuse_count : Option ℕ
  pub avoided_tool_executions : Option ℕ
  pub full_repository_scans : Option ℕ
  pub agent_calls_reported : Option (Option ℕ)
  pub model_capability_class : Option (Option String)
  pub soft_budget : Option (Option ℕ)
  pub hard_budget : Option (Option ℕ)
  pub budget_status : Option BudgetStatus

abbrev pub no_patch : LedgerPatch
no_patch = record {
  work_order_id = none;
  execution_run_id = none;
  estimated_context_tokens = none;
  estimated_diagnostic_tokens = none;
  context_expansions = none;
  c5_uses = none;
  tool_executions = none;
  gate_executions = none;
  gate_cache_hits = none;
  gate_cache_misses = none;
  evidence_reuse_count = none;
  avoided_tool_executions = none;
  full_repository_scans = none;
  agent_calls_reported = none;
  model_capability_class = none;
  soft_budget = none;
  hard_budget = none;
  budget_status = none;
}

pub record CostDecision : Type 0 where
  pub cost_decision_id : String
  pub project_id : String
  pub work_order_id : Option String
  pub execution_run_id : Option String
  pub outcome : GovernorOutcome
  pub reason_codes : List String
  pub subject : String
  pub created_at : String

-- `ledger.json`: not there, no valid ledger, or a ledger that its schema accepts.
pub data LedgerFile : Type 0 where
  missing unreadable : LedgerFile
  holds : CostLedger → LedgerFile

-- The ledger's file and the decisions' files, the newest decision first.
pub record CostStore : Type 0 where
  pub ledger : LedgerFile
  pub decisions : List CostDecision

-- What a step of the governor depends on and does not compute: the time, the digest of
-- `newPrefixedId`, the redaction of secrets, and whether a record that is to be written is accepted,
-- by its schema and, for a decision, as the name of its file (`assertSafeSidecarId`).
pub record Surroundings : Type 0 where
  pub now : String
  pub digest : String → String
  pub redact : String → String  -- `sanitizeOperationalText`
  pub accepts_ledger : CostLedger → Bool
  pub accepts_decision : CostDecision → Bool

-- What a call throws: the schema's error, or `CostBudgetError` with the estimate and the limit.
pub data CostError : Type 0 where
  schema_error : CostError
  budget_error : ℕ → ℕ → CostError

-- A call's result beside the store that it leaves.
pub data Outcome {ℓ} (A : Type ℓ) : Type ℓ where
  returns : CostStore → A → Outcome A
  throws : CostStore → CostError → Outcome A
