-- ===== src/Cost/Counting.antt =====
-- The counters that the events of `noteGovernorEvent`, src/kernel/cost-governor.ts, add to.
use Prim.Native.String.{String}
use uads.Common.{
  inl, inr, Bool-cases, ℕ, true, ◌+◌, List, [], ◌∷◌, Option, none, some, ◌==◌, string_eq, ◌≡◌, refl,
  arith, ap, sym, ◌∙◌, All,
}
use uads.Cost.Types.{
  CostDecision, CostLedger, CostStore, GovernorOutcome, LedgerFile, LedgerPatch, Outcome,
  Surroundings, holds, missing, unreadable, returns, throws,
}
use uads.Cost.Ledger.{
  apply_ledger_patch, count_patch, counted, empty_cost_ledger, increment_cost_counters, ledger_in,
  load_ledger, or_empty, patch_ledger, patched, persist_cost_ledger, read_cost_ledger,
  sanitize_ledger,
}
use uads.Cost.Budget.{event_extra, note_governor_event, write_decision}

-- The counters of a ledger, COUNTER_KEYS of src/kernel/cost-governor.ts.
pub data Counter : Type 0 where
  context_tokens diagnostic_tokens expansions c5 tools gates hits misses reuses avoided scans :
      Counter

abbrev pub count_of : Counter → CostLedger → ℕ
count_of context_tokens l = l.estimated_context_tokens
count_of diagnostic_tokens l = l.estimated_diagnostic_tokens
count_of expansions l = l.context_expansions
count_of c5 l = l.c5_uses
count_of tools l = l.tool_executions
count_of gates l = l.gate_executions
count_of hits l = l.gate_cache_hits
count_of misses l = l.gate_cache_misses
count_of reuses l = l.evidence_reuse_count
count_of avoided l = l.avoided_tool_executions
count_of scans l = l.full_repository_scans

abbrev or_zero : Option ℕ → ℕ
or_zero none = 0
or_zero (some n) = n

-- What an event adds to a counter.
abbrev pub amount : Counter → LedgerPatch → ℕ
amount context_tokens p = or_zero p.estimated_context_tokens
amount diagnostic_tokens p = or_zero p.estimated_diagnostic_tokens
amount expansions p = or_zero p.context_expansions
amount c5 p = or_zero p.c5_uses
amount tools p = or_zero p.tool_executions
amount gates p = or_zero p.gate_executions
amount hits p = or_zero p.gate_cache_hits
amount misses p = or_zero p.gate_cache_misses
amount reuses p = or_zero p.evidence_reuse_count
amount avoided p = or_zero p.avoided_tool_executions
amount scans p = or_zero p.full_repository_scans

-- A call of `noteGovernorEvent` with counts.
pub record Event : Type 0 where
  pub env : Surroundings
  pub work_order_id : Option String
  pub execution_run_id : Option String
  pub outcome : GovernorOutcome
  pub reasons : List String
  pub subject : String
  pub counts : LedgerPatch

abbrev pub note_event : String → CostStore → Event → Outcome CostDecision
note_event project_id store e =
    note_governor_event e.env store project_id e.work_order_id e.execution_run_id e.outcome
      e.reasons e.subject (some e.counts)

abbrev pub after_event :
    (CostStore → Outcome (Unit {0})) → Outcome CostDecision → Outcome (Unit {0})
after_event next (returns store d) = next store
after_event next (throws store e) = throws store e

-- Events in a row, each on the store that the one before it leaves.
unfoldable pub note_all : String → CostStore → List Event → Outcome (Unit {0})
note_all project_id store [] = returns store tt
note_all project_id store (e ∷ es) =
    after_event (λ s. note_all project_id s es) (note_event project_id store e)

abbrev pub total : Counter → List Event → ℕ
total c [] = 0
total c (e ∷ es) = amount c e.counts + total c es

patched_count : (d : Option ℕ) (x : ℕ) → patched (counted d x none) x ≡ x + or_zero d
patched_count none x = omega arith
patched_count (some d) x = refl

count_added :
    (env : Surroundings) (project_id : String) (l : CostLedger) (p : LedgerPatch)
    (order_id run_id : Option String) (c : Counter)
    → count_of c (
        sanitize_ledger env.redact
          (patch_ledger env project_id l (count_patch l p (event_extra order_id run_id))))
      ≡ count_of c l + amount c p
unfolding sanitize_ledger patch_ledger count_patch
count_added env project_id l p order_id run_id context_tokens =
    patched_count p.estimated_context_tokens l.estimated_context_tokens
count_added env project_id l p order_id run_id diagnostic_tokens =
    patched_count p.estimated_diagnostic_tokens l.estimated_diagnostic_tokens
count_added env project_id l p order_id run_id expansions =
    patched_count p.context_expansions l.context_expansions
count_added env project_id l p order_id run_id c5 = patched_count p.c5_uses l.c5_uses
count_added env project_id l p order_id run_id tools =
    patched_count p.tool_executions l.tool_executions
count_added env project_id l p order_id run_id gates =
    patched_count p.gate_executions l.gate_executions
count_added env project_id l p order_id run_id hits =
    patched_count p.gate_cache_hits l.gate_cache_hits
count_added env project_id l p order_id run_id misses =
    patched_count p.gate_cache_misses l.gate_cache_misses
count_added env project_id l p order_id run_id reuses =
    patched_count p.evidence_reuse_count l.evidence_reuse_count
count_added env project_id l p order_id run_id avoided =
    patched_count p.avoided_tool_executions l.avoided_tool_executions
count_added env project_id l p order_id run_id scans =
    patched_count p.full_repository_scans l.full_repository_scans

written_ledger :
    (env : Surroundings) (store : CostStore) (d : CostDecision)
    → (write_decision env store d).ledger ≡ store.ledger
unfolding write_decision
written_ledger env store d = ground arith

empty_count :
    (c : Counter) (env other : Surroundings) (project_id : String)
    → count_of c (empty_cost_ledger env project_id)
      ≡ count_of c (empty_cost_ledger other project_id)
unfolding empty_cost_ledger
empty_count context_tokens env other project_id = refl
empty_count diagnostic_tokens env other project_id = refl
empty_count expansions env other project_id = refl
empty_count c5 env other project_id = refl
empty_count tools env other project_id = refl
empty_count gates env other project_id = refl
empty_count hits env other project_id = refl
empty_count misses env other project_id = refl
empty_count reuses env other project_id = refl
empty_count avoided env other project_id = refl
empty_count scans env other project_id = refl

-- A count does not depend on the time at which a missing ledger is taken for an empty one.
count_loaded :
    (c : Counter) (env other : Surroundings) (project_id : String) (f : LedgerFile)
    → count_of c (or_empty env project_id (ledger_in env project_id f))
      ≡ count_of c (or_empty other project_id (ledger_in other project_id f))
count_loaded c env other project_id missing = empty_count c env other project_id
count_loaded c env other project_id unreadable = empty_count c env other project_id
count_loaded c env other project_id (holds l) = elim (Bool-cases (l.project_id == project_id)) [
  | inl same ↦ rw same refl
  | inr foreign ↦ rw foreign (empty_count c env other project_id)
]

store_of : CostStore → Outcome CostDecision → CostStore
store_of other (returns store d) = store
store_of other (throws store e) = store

-- The counts that a store gives which holds a ledger of the project.
held_count :
    (c : Counter) (env : Surroundings) (project_id : String) (store : CostStore) (l : CostLedger)
    → store.ledger ≡ holds l
    → (l.project_id == project_id) ≡ true
    → count_of c (load_ledger env store project_id) ≡ count_of c l
unfolding load_ledger read_cost_ledger
held_count c env project_id store l stored own = rw stored (rw own refl)

kept_project :
    (env : Surroundings) (project_id : String) (l : CostLedger) (p : LedgerPatch)
    → env.redact project_id ≡ project_id
    → ((sanitize_ledger env.redact (patch_ledger env project_id l p)).project_id == project_id)
      ≡ true
unfolding sanitize_ledger patch_ledger
kept_project env project_id l p own = (string_eq.beq_iff (env.redact project_id) project_id).1 own

-- One event adds its counts.
note_event_counts :
    (env : Surroundings) (project_id : String) (store store' : CostStore) (e : Event)
    (d : CostDecision) (c : Counter)
    → e.env.redact project_id ≡ project_id
    → note_event project_id store e ≡ returns store' d
    → count_of c (load_ledger env store' project_id)
      ≡ count_of c (load_ledger env store project_id) + amount c e.counts
unfolding note_governor_event increment_cost_counters apply_ledger_patch persist_cost_ledger
    load_ledger read_cost_ledger store_of write_decision
note_event_counts env project_id store store' e d c own h =
    let extra = event_extra e.work_order_id e.execution_run_id in
    let l = load_ledger e.env store project_id in
    let kept =
      sanitize_ledger e.env.redact
        (patch_ledger e.env project_id l (count_patch l e.counts extra)) in
    elim (Bool-cases (e.env.accepts_ledger kept)) [
      | inl accepted ↦
          let k = rw accepted at h in
          let stored = ap (λ o. (store_of store o).ledger) (sym k) ∙ written_ledger e.env _ _ in
          held_count c env project_id store' kept stored
            (kept_project e.env project_id l (count_patch l e.counts extra) own)
          ∙ count_added e.env project_id l e.counts e.work_order_id e.execution_run_id c
          ∙ ap (λ n. n + amount c e.counts) (count_loaded c e.env env project_id store.ledger)
      | inr refused ↦ let k = rw refused at h in cc k
    ]

after_event-returns :
    (next : CostStore → Outcome (Unit {0})) (o : Outcome CostDecision) (store' : CostStore)
    → after_event next o ≡ returns store' tt
    → (s : CostStore) × (d : CostDecision) × (o ≡ returns s d) × (next s ≡ returns store' tt)
after_event-returns next (returns s d) store' h = (s, d, refl, h)
after_event-returns next (throws s e) store' h = cc h

-- Where events of a project return one after the other, each in surroundings of its own, every
-- counter of the ledger ends at its value before and the sum of what the events add to it: no event
-- is lost and none is counted twice. The project's id must be one that redaction keeps.
pub note_all_counts :
    (env : Surroundings) (project_id : String) (store store' : CostStore) (es : List Event)
    (c : Counter)
    → All (λ (e : Event). e.env.redact project_id ≡ project_id) es
    → note_all project_id store es ≡ returns store' tt
    → count_of c (load_ledger env store' project_id)
      ≡ count_of c (load_ledger env store project_id) + total c es
unfolding note_all
note_all_counts env project_id store store' [] c own h =
    let same : store ≡ store' = cc h in
    ground (arith, ap (λ (s : CostStore). count_of c (load_ledger env s project_id)) same)
note_all_counts env project_id store store' (e ∷ es) c own h =
    let (s, d, noted, rest) =
      after_event-returns (λ s. note_all project_id s es) (note_event project_id store e) store'
        h in
    omega (
      arith,
      note_event_counts env project_id store s e d c own.0 noted,
      note_all_counts env project_id s store' es c own.1 rest,
    )
