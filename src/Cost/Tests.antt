-- ===== src/Cost/Tests.antt =====
-- The cost governor on a small store, and its theorems at it.
use uads.Common.{
  true, false, [], ◌∷◌, ◌+◌, ◌≢◌, filter, none, some, ◌≤◌, ◌<◌, ◌≡◌, ◌⊎◌, ◌↔◌, refl, arith,
}
use uads.Kernel.Types.{WorkOrder, RiskLevel, planned, local, c2, balanced}
use uads.Cost.Types.{
  BudgetStatus, GovernorOutcome, Outcome, CostLedger, CostStore, LedgerPatch, Surroundings, missing,
  no_patch, budget_error, returns, throws, schema_error,
}
use uads.Cost.Ledger.{
  apply_ledger_patch, increment_cost_counters, load_ledger, patch_ledger, persist_cost_ledger,
  read_cost_ledger, count_patch, empty_cost_ledger, sanitize_ledger,
}
use uads.Cost.Budget.{
  cost_decision, note_governor_event, sanitize_decision, write_decision, budget_decision,
  budget_status_of, enforce_token_budget, evaluate_token_budget,
}
use uads.Cost.Accounting.{apply_ledger_patch-read_cost_ledger}
use uads.Cost.Counting.{Counter, Event, count_of, note_all, note_all_counts, total}
use uads.Cost.Enforcement.{
  budget_ledger, budget_store, enforce_token_budget_cases, enforce_token_budget_safe,
}

abbrev env : Surroundings
env = record {
  now = "t0";
  digest = λ s. s;
  redact = λ s. s;
  accepts_ledger = λ l. true;
  accepts_decision = λ d. true;
}

abbrev store : CostStore
store = record { ledger = missing; decisions = [] }

abbrev order : WorkOrder
order = record {
  work_order_id = "w";
  project_id = "p";
  title = "t";
  objective = "o";
  status = planned;
  scope_class = local;
  included_scope = [];
  out_of_scope = [];
  recommendations = [];
  risk_level = RiskLevel.medium;
  risk_reasons = [];
  domains = [];
  affected_areas = [];
  specialists = [];
  assurance_reviewers = [];
  quality_gates = [];
  context_radius = c2;
  token_budget = record { soft_limit = 10; hard_limit = 20; capability_class = balanced };
  dependencies = [];
  acceptance_criteria = [];
  required_evidence = [];
  stop_conditions = [];
  routing_decision_id = "d";
  safe_autonomous = [];
  requires_approval = [];
  next_action = "";
}

abbrev one_tool : LedgerPatch
one_tool = record no_patch { tool_executions = some 1 }

abbrev two_gates : LedgerPatch
two_gates = record no_patch { gate_executions = some 2; tool_executions = some 2 }

enforce_token_budget_cases_example :
    (((env.accepts_ledger (budget_ledger env store order 30 none) ≡ true)
        × (order.token_budget.hard_limit < 30))
      → enforce_token_budget env store order 30 "task" none
        ≡ throws (budget_store env store order 30 "task" none) (budget_error 30 20))
    × (((env.accepts_ledger (budget_ledger env store order 30 none) ≡ true)
          × (30 ≤ order.token_budget.hard_limit))
        → enforce_token_budget env store order 30 "task" none
          ≡ returns
              (budget_store env store order 30 "task" none)
              (budget_status_of order 30, budget_decision env order 30 "task" none))
    × ((env.accepts_ledger (budget_ledger env store order 30 none) ≡ false)
        → enforce_token_budget env store order 30 "task" none ≡ throws store schema_error)
enforce_token_budget_cases_example = enforce_token_budget_cases env store order 30 "task" none

-- An estimate over the hard limit, and the limit's error.
over_hard_limit :
    enforce_token_budget env store order 30 "task" none
    ≡ throws (budget_store env store order 30 "task" none) (budget_error 30 20)
over_hard_limit = (enforce_token_budget_cases env store order 30 "task" none).0 (refl, omega arith)

enforce_token_budget_safe_example :
    (15 ≤ order.token_budget.hard_limit)
    × ((BudgetStatus.soft_warning ≡ BudgetStatus.soft_warning)
        ↔ (order.token_budget.soft_limit < 15))
unfolding enforce_token_budget apply_ledger_patch persist_cost_ledger budget_status_of
    evaluate_token_budget
enforce_token_budget_safe_example =
    enforce_token_budget_safe env store (budget_store env store order 15 "task" none) order 15
      "task" none BudgetStatus.soft_warning (budget_decision env order 15 "task" none) refl

apply_ledger_patch-read_cost_ledger_example :
    ((store' : CostStore) × (l : CostLedger) × (l
        ≡ sanitize_ledger env.redact (patch_ledger env "p" (load_ledger env store "p") one_tool))
      × (env.accepts_ledger l ≡ true)
      × (apply_ledger_patch env store "p" one_tool ≡ returns store' l)
      × (env.redact "p" ≡ "p" → read_cost_ledger env store' "p" ≡ some l)
      × (env.redact "p" ≢ "p" → read_cost_ledger env store' "p" ≡ none)
      × (store'.decisions ≡ store.decisions))
    ⊎ (apply_ledger_patch env store "p" one_tool ≡ throws store schema_error)
apply_ledger_patch-read_cost_ledger_example =
    apply_ledger_patch-read_cost_ledger env store "p" one_tool

abbrev tool_event : Event
tool_event = record {
  env = env;
  work_order_id = some "w";
  execution_run_id = none;
  outcome = GovernorOutcome.allow;
  reasons = [];
  subject = "tool";
  counts = one_tool;
}

-- Two gates, noted at another time.
abbrev gate_event : Event
gate_event = record tool_event {
  env = record env { now = "t1" };
  subject = "gate";
  counts = two_gates;
}

abbrev store_after_events : Outcome (Unit {0}) → CostStore
store_after_events (returns s t) = s
store_after_events (throws s e) = s

-- The store that the two events leave.
abbrev noted_store : CostStore
noted_store = store_after_events (note_all "p" store (tool_event ∷ gate_event ∷ []))

note_all_counts_example :
    count_of Counter.tools (load_ledger env noted_store "p")
    ≡ count_of Counter.tools (load_ledger env store "p")
      + total Counter.tools (tool_event ∷ gate_event ∷ [])
unfolding note_all note_governor_event increment_cost_counters apply_ledger_patch
    persist_cost_ledger load_ledger read_cost_ledger empty_cost_ledger patch_ledger count_patch
    sanitize_ledger sanitize_decision write_decision cost_decision filter
note_all_counts_example =
    note_all_counts env "p" store noted_store (tool_event ∷ gate_event ∷ []) Counter.tools
      (refl, (refl, tt)) refl
