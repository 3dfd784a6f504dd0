-- ===== src/Cost/Ledger.antt =====
-- The ledger of src/kernel/cost-governor.ts: reading it, patching it and counting in it.
use Prim.Native.String.{String}
use uads.Common.{ℕ, ◌+◌, Option, none, some, ◌==◌, string_eq, if◌then◌else◌}
use uads.Common.Nullable.{map_text}
use uads.Cost.Types.{
  BudgetStatus, CostLedger, CostStore, LedgerFile, LedgerPatch, Outcome, Surroundings, missing,
  unreadable, holds, schema_error, returns, throws,
}

unfoldable pub empty_cost_ledger : Surroundings → String → CostLedger
empty_cost_ledger env project_id = record {
  project_id = project_id;
  work_order_id = none;
  execution_run_id = none;
  estimated_context_tokens = 0;
  estimated_diagnostic_tokens = 0;
  context_expansions = 0;
  c5_uses = 0;
  tool_executions = 0;
  gate_executions = 0;
  gate_cache_hits = 0;
  gate_cache_misses = 0;
  evidence_reuse_count = 0;
  avoided_tool_executions = 0;
  full_repository_scans = 0;
  agent_calls_reported = none;
  model_capability_class = none;
  soft_budget = none;
  hard_budget = none;
  budget_status = BudgetStatus.ok;
  updated_at = env.now;
}

-- A ledger of another project is no ledger of this one.
abbrev pub ledger_in : Surroundings → String → LedgerFile → Option CostLedger
ledger_in env project_id missing = some (empty_cost_ledger env project_id)
ledger_in env project_id unreadable = none
ledger_in env project_id (holds l) = if l.project_id == project_id then some l else none

unfoldable pub read_cost_ledger : Surroundings → CostStore → String → Option CostLedger
read_cost_ledger env store project_id = ledger_in env project_id store.ledger

abbrev pub or_empty : Surroundings → String → Option CostLedger → CostLedger
or_empty env project_id none = empty_cost_ledger env project_id
or_empty env project_id (some l) = l

unfoldable pub load_ledger : Surroundings → CostStore → String → CostLedger
load_ledger env store project_id = or_empty env project_id (read_cost_ledger env store project_id)

abbrev pub patched {ℓ} : {A : Type ℓ} → Option A → A → A
patched none a = a
patched (some b) a = b

-- `{ ...current, ...patch, projectId, updatedAt }`
unfoldable pub patch_ledger : Surroundings → String → CostLedger → LedgerPatch → CostLedger
patch_ledger env project_id l p = record {
  project_id = project_id;
  work_order_id = patched p.work_order_id l.work_order_id;
  execution_run_id = patched p.execution_run_id l.execution_run_id;
  estimated_context_tokens = patched p.estimated_context_tokens l.estimated_context_tokens;
  estimated_diagnostic_tokens = patched p.estimated_diagnostic_tokens l.estimated_diagnostic_tokens;
  context_expansions = patched p.context_expansions l.context_expansions;
  c5_uses = patched p.c5_uses l.c5_uses;
  tool_executions = patched p.tool_executions l.tool_executions;
  gate_executions = patched p.gate_executions l.gate_executions;
  gate_cache_hits = patched p.gate_cache_hits l.gate_cache_hits;
  gate_cache_misses = patched p.gate_cache_misses l.gate_cache_misses;
  evidence_reuse_count = patched p.evidence_reuse_count l.evidence_reuse_count;
  avoided_tool_executions = patched p.avoided_tool_executions l.avoided_tool_executions;
  full_repository_scans = patched p.full_repository_scans l.full_repository_scans;
  agent_calls_reported = patched p.agent_calls_reported l.agent_calls_reported;
  model_capability_class = patched p.model_capability_class l.model_capability_class;
  soft_budget = patched p.soft_budget l.soft_budget;
  hard_budget = patched p.hard_budget l.hard_budget;
  budget_status = patched p.budget_status l.budget_status;
  updated_at = env.now;
}

-- `sanitizeOperationalValue` of a ledger: its texts are redacted and its numbers stay. So does its
-- status, a literal of a closed union, which holds no secret.
unfoldable pub sanitize_ledger : (String → String) → CostLedger → CostLedger
sanitize_ledger redact l = record l {
  project_id = redact l.project_id;
  work_order_id = map_text redact l.work_order_id;
  execution_run_id = map_text redact l.execution_run_id;
  model_capability_class = map_text redact l.model_capability_class;
  updated_at = redact l.updated_at;
}

-- The schema is asked of the redacted ledger before the file is written: what it refuses leaves the
-- store as it was.
unfoldable pub persist_cost_ledger : Surroundings → CostStore → CostLedger → Outcome CostLedger
persist_cost_ledger env store l =
    let kept = sanitize_ledger env.redact l in
    if env.accepts_ledger kept
    then returns (record { ledger = holds kept; decisions = store.decisions }) kept
    else throws store schema_error

unfoldable pub apply_ledger_patch :
    Surroundings → CostStore → String → LedgerPatch → Outcome CostLedger
apply_ledger_patch env store project_id p =
    persist_cost_ledger env store (patch_ledger env project_id (load_ledger env store project_id) p)

-- `patch[key] = current[key] + delta` when there is a delta, over what `extra` sets.
abbrev pub counted : Option ℕ → ℕ → Option ℕ → Option ℕ
counted none current extra = extra
counted (some d) current extra = some (current + d)

unfoldable pub count_patch : CostLedger → LedgerPatch → LedgerPatch → LedgerPatch
count_patch l d extra = record {
  work_order_id = extra.work_order_id;
  execution_run_id = extra.execution_run_id;
  estimated_context_tokens =
      counted d.estimated_context_tokens l.estimated_context_tokens extra.estimated_context_tokens;
  estimated_diagnostic_tokens =
      counted d.estimated_diagnostic_tokens l.estimated_diagnostic_tokens
        extra.estimated_diagnostic_tokens;
  context_expansions = counted d.context_expansions l.context_expansions extra.context_expansions;
  c5_uses = counted d.c5_uses l.c5_uses extra.c5_uses;
  tool_executions = counted d.tool_executions l.tool_executions extra.tool_executions;
  gate_executions = counted d.gate_executions l.gate_executions extra.gate_executions;
  gate_cache_hits = counted d.gate_cache_hits l.gate_cache_hits extra.gate_cache_hits;
  gate_cache_misses = counted d.gate_cache_misses l.gate_cache_misses extra.gate_cache_misses;
  evidence_reuse_count =
      counted d.evidence_reuse_count l.evidence_reuse_count extra.evidence_reuse_count;
  avoided_tool_executions =
      counted d.avoided_tool_executions l.avoided_tool_executions extra.avoided_tool_executions;
  full_repository_scans =
      counted d.full_repository_scans l.full_repository_scans extra.full_repository_scans;
  agent_calls_reported = extra.agent_calls_reported;
  model_capability_class = extra.model_capability_class;
  soft_budget = extra.soft_budget;
  hard_budget = extra.hard_budget;
  budget_status = extra.budget_status;
}

unfoldable pub increment_cost_counters :
    Surroundings → CostStore → String → LedgerPatch → LedgerPatch → Outcome CostLedger
increment_cost_counters env store project_id deltas extra =
    apply_ledger_patch env store project_id
      (count_patch (load_ledger env store project_id) deltas extra)
