-- ===== src/Cost/Budget.antt =====
-- The token budget of src/kernel/cost-governor.ts and the decisions written about it.
use Prim.Native.String.{String}
use uads.Common.Nullable.{map_text}
use uads.Common.{
  map, filter, not, ◌==◌, string_eq, ℕ, Bool, false, List, [], ◌∷◌, Option, none, some, ltb,
  if◌then◌else◌, ◌&◌,
}
use uads.Kernel.Types.{WorkOrder, capability_text}
use uads.Cost.Types.{
  BudgetStatus, CostDecision, CostLedger, CostStore, GovernorOutcome, LedgerPatch, Outcome,
  Surroundings, no_patch, budget_error, returns, throws,
}
use uads.Cost.Ledger.{apply_ledger_patch, increment_cost_counters}

-- `limit != null && estimated > limit`
abbrev pub is_over : ℕ → Option ℕ → Bool
is_over estimated none = false
is_over estimated (some limit) = ltb limit estimated

unfoldable pub evaluate_token_budget : ℕ → Option ℕ → Option ℕ → BudgetStatus
evaluate_token_budget estimated soft hard =
    if is_over estimated hard
    then BudgetStatus.hard_blocked
    else if is_over estimated soft
    then BudgetStatus.soft_warning
    else BudgetStatus.ok

abbrev outcome_text : GovernorOutcome → String
outcome_text GovernorOutcome.allow = "allow"
outcome_text GovernorOutcome.warn = "warn"
outcome_text GovernorOutcome.block = "block"
outcome_text GovernorOutcome.reuse = "reuse"

unfoldable pub cost_decision :
    Surroundings
    → String
    → Option String
    → Option String
    → GovernorOutcome
    → List String
    → String
    → CostDecision
cost_decision env project_id order_id run_id outcome reasons subject = record {
  cost_decision_id =
      "csd_" & env.digest (project_id & ":" & subject & ":" & env.now & ":" & outcome_text outcome);
  project_id = project_id;
  work_order_id = order_id;
  execution_run_id = run_id;
  outcome = outcome;
  reason_codes = reasons;
  subject = subject;
  created_at = env.now;
}

-- `sanitizeOperationalValue` of a decision; its outcome is a literal of a closed union.
unfoldable pub sanitize_decision : (String → String) → CostDecision → CostDecision
sanitize_decision redact d = record d {
  cost_decision_id = redact d.cost_decision_id;
  project_id = redact d.project_id;
  work_order_id = map_text redact d.work_order_id;
  execution_run_id = map_text redact d.execution_run_id;
  reason_codes = map redact d.reason_codes;
  subject = redact d.subject;
  created_at = redact d.created_at;
}

-- A decision replaces the one whose file has its id.
abbrev pub put_decision : CostDecision → List CostDecision → List CostDecision
put_decision d ds =
    d ∷ filter (λ (e : CostDecision). not (e.cost_decision_id == d.cost_decision_id)) ds

-- `persistCostDecision` within `writeDecision`: a redacted decision that is not accepted is not kept,
-- and nothing is thrown.
unfoldable pub write_decision : Surroundings → CostStore → CostDecision → CostStore
write_decision env store d =
    let kept = sanitize_decision env.redact d in
    if env.accepts_decision kept
    then record { ledger = store.ledger; decisions = put_decision kept store.decisions }
    else store

-- The patch of `enforceTokenBudget`.
unfoldable pub budget_patch : WorkOrder → ℕ → Option String → BudgetStatus → LedgerPatch
budget_patch order estimated run_id status = record no_patch {
  work_order_id = some (some order.work_order_id);
  execution_run_id = some run_id;
  estimated_context_tokens = some estimated;
  soft_budget = some (some order.token_budget.soft_limit);
  hard_budget = some (some order.token_budget.hard_limit);
  model_capability_class = some (some (capability_text order.token_budget.capability_class));
  budget_status = some status;
}

abbrev outcome_for : BudgetStatus → GovernorOutcome
outcome_for BudgetStatus.ok = GovernorOutcome.allow
outcome_for BudgetStatus.soft_warning = GovernorOutcome.warn
outcome_for BudgetStatus.hard_blocked = GovernorOutcome.block

abbrev reasons_for : BudgetStatus → List String
reasons_for BudgetStatus.ok = "BUDGET_OK" ∷ "BYTE_HEURISTIC_ESTIMATE" ∷ []
reasons_for BudgetStatus.soft_warning =
    "SOFT_TOKEN_BUDGET" ∷ "RECOMMEND_REUSE_OR_NARROWER_CONTEXT" ∷ "BYTE_HEURISTIC_ESTIMATE" ∷ []
reasons_for BudgetStatus.hard_blocked = "HARD_TOKEN_BUDGET" ∷ "BYTE_HEURISTIC_ESTIMATE" ∷ []

unfoldable pub budget_status_of : WorkOrder → ℕ → BudgetStatus
budget_status_of order estimated =
    evaluate_token_budget estimated (some order.token_budget.soft_limit)
      (some order.token_budget.hard_limit)

unfoldable pub budget_decision :
    Surroundings → WorkOrder → ℕ → String → Option String → CostDecision
budget_decision env order estimated subject run_id =
    let status = budget_status_of order estimated in
    cost_decision env order.project_id (some order.work_order_id) run_id (outcome_for status)
      (reasons_for status) subject

abbrev pub answer :
    BudgetStatus → CostStore → CostDecision → ℕ → ℕ → Outcome (BudgetStatus × CostDecision)
answer BudgetStatus.ok store d estimated hard = returns store (BudgetStatus.ok, d)
answer BudgetStatus.soft_warning store d estimated hard =
    returns store (BudgetStatus.soft_warning, d)
answer BudgetStatus.hard_blocked store d estimated hard = throws store (budget_error estimated hard)

abbrev pub after_patch :
    Surroundings
    → WorkOrder
    → ℕ
    → String
    → Option String
    → Outcome CostLedger
    → Outcome (BudgetStatus × CostDecision)
after_patch env order estimated subject run_id (throws store e) = throws store e
after_patch env order estimated subject run_id (returns store l) =
    let d = budget_decision env order estimated subject run_id in
    answer (budget_status_of order estimated) (write_decision env store d) d estimated
      order.token_budget.hard_limit

-- The ledger is written first, whatever the status; then the decision; then a status over the hard
-- limit is thrown.
unfoldable pub enforce_token_budget :
    Surroundings
    → CostStore
    → WorkOrder
    → ℕ
    → String
    → Option String
    → Outcome (BudgetStatus × CostDecision)
enforce_token_budget env store order estimated subject run_id =
    after_patch env order estimated subject run_id (
      apply_ledger_patch env store order.project_id
        (budget_patch order estimated run_id (budget_status_of order estimated)))

abbrev decide : Surroundings → CostDecision → Outcome CostLedger → Outcome CostDecision
decide env d (throws store e) = throws store e
decide env d (returns store l) = returns (write_decision env store d) d

abbrev pub event_extra : Option String → Option String → LedgerPatch
event_extra order_id run_id = record no_patch {
  work_order_id = some order_id;
  execution_run_id = some run_id;
}

-- `noteGovernorEvent`: the counters first, when there are any to count.
unfoldable pub note_governor_event :
    Surroundings
    → CostStore
    → String
    → Option String
    → Option String
    → GovernorOutcome
    → List String
    → String
    → Option LedgerPatch
    → Outcome CostDecision
note_governor_event env store project_id order_id run_id outcome reasons subject none =
    let d = cost_decision env project_id order_id run_id outcome reasons subject in
    returns (write_decision env store d) d
note_governor_event env store project_id order_id run_id outcome reasons subject (some p) =
    decide env (cost_decision env project_id order_id run_id outcome reasons subject)
      (increment_cost_counters env store project_id p (event_extra order_id run_id))
