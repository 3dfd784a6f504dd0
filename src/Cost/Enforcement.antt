-- ===== src/Cost/Enforcement.antt =====
-- What the token budget of src/kernel/cost-governor.ts lets through.
use Prim.Native.String.{String}
use uads.Common.{
  ◌⊎◌, inl, inr, Bool-cases, ℕ, ◌≤◌, ◌<◌, true, false, Option, none, some, ◌≡◌, ◌↔◌, refl, arith,
  ap, ◌∙◌,
}
use uads.Kernel.Types.{WorkOrder}
use uads.Cost.Types.{
  BudgetStatus, CostDecision, CostLedger, CostStore, Outcome, Surroundings, budget_error, holds,
  returns, throws, schema_error,
}
use uads.Cost.Ledger.{
  apply_ledger_patch, persist_cost_ledger, load_ledger, patch_ledger, sanitize_ledger,
}
use uads.Cost.Budget.{
  is_over, evaluate_token_budget, budget_status_of, budget_patch, budget_decision,
  enforce_token_budget, write_decision, after_patch, answer,
}

abbrev pub budget_rank : BudgetStatus → ℕ
budget_rank BudgetStatus.ok = 0
budget_rank BudgetStatus.soft_warning = 1
budget_rank BudgetStatus.hard_blocked = 2

-- A limit at least as tight: no limit is the loosest.
abbrev pub IsTighter : Option ℕ → Option ℕ → Type 0
IsTighter a none = Unit
IsTighter none (some b) = ⊥
IsTighter (some a) (some b) = a ≤ b

is_over_mono :
    (n m : ℕ) (a b : Option ℕ) → n ≤ m → IsTighter b a → is_over n a ≡ true → is_over m b ≡ true
is_over_mono n m none b le t h = cc h
is_over_mono n m (some a) none le t h = absurd t
is_over_mono n m (some a) (some b) le t h = ground (arith, le, t, h)

-- More tokens, or tighter limits, never get a milder status.
pub evaluate_token_budget_mono :
    (n m : ℕ) (soft hard soft' hard' : Option ℕ)
    → n ≤ m
    → IsTighter soft' soft
    → IsTighter hard' hard
    → budget_rank (evaluate_token_budget n soft hard)
      ≤ budget_rank (evaluate_token_budget m soft' hard')
unfolding evaluate_token_budget
evaluate_token_budget_mono n m soft hard soft' hard' le s h =
    ground (arith, is_over_mono n m soft soft' le s, is_over_mono n m hard hard' le h)

-- The ledger that the budget writes, redacted.
abbrev pub budget_ledger : Surroundings → CostStore → WorkOrder → ℕ → Option String → CostLedger
budget_ledger env store order estimated run_id = sanitize_ledger env.redact (
    patch_ledger env order.project_id (load_ledger env store order.project_id)
      (budget_patch order estimated run_id (budget_status_of order estimated)))

-- The store that it leaves.
abbrev pub budget_store :
    Surroundings → CostStore → WorkOrder → ℕ → String → Option String → CostStore
budget_store env store order estimated subject run_id =
    write_decision env
      (record {
        ledger = holds (budget_ledger env store order estimated run_id);
        decisions = store.decisions;
      })
      (budget_decision env order estimated subject run_id)

budget_accepted :
    (env : Surroundings) (store : CostStore) (order : WorkOrder) (estimated : ℕ) (subject : String)
    (run_id : Option String)
    → env.accepts_ledger (budget_ledger env store order estimated run_id) ≡ true
    → enforce_token_budget env store order estimated subject run_id
      ≡ after_patch env order estimated subject run_id (
          returns
            (record {
              ledger = holds (budget_ledger env store order estimated run_id);
              decisions = store.decisions;
            })
            (budget_ledger env store order estimated run_id))
unfolding enforce_token_budget apply_ledger_patch persist_cost_ledger
budget_accepted env store order estimated subject run_id accepted = rw accepted refl

budget_refused :
    (env : Surroundings) (store : CostStore) (order : WorkOrder) (estimated : ℕ) (subject : String)
    (run_id : Option String)
    → env.accepts_ledger (budget_ledger env store order estimated run_id) ≡ false
    → enforce_token_budget env store order estimated subject run_id ≡ throws store schema_error
unfolding enforce_token_budget apply_ledger_patch persist_cost_ledger
budget_refused env store order estimated subject run_id refused = rw refused refl

answer_blocked :
    (status : BudgetStatus) (store : CostStore) (d : CostDecision) (estimated hard : ℕ)
    → status ≡ BudgetStatus.hard_blocked
    → answer status store d estimated hard ≡ throws store (budget_error estimated hard)
answer_blocked status store d estimated hard e = rw e refl

answer_allowed :
    (status : BudgetStatus) (store : CostStore) (d : CostDecision) (estimated hard : ℕ)
    → budget_rank status ≤ 1
    → answer status store d estimated hard ≡ returns store (status, d)
answer_allowed BudgetStatus.ok store d estimated hard h = refl
answer_allowed BudgetStatus.soft_warning store d estimated hard h = refl
answer_allowed BudgetStatus.hard_blocked store d estimated hard h =
    let no : ⊥ = omega (arith, h) in absurd no

over_limit :
    (order : WorkOrder) (estimated : ℕ)
    → order.token_budget.hard_limit < estimated
    → budget_status_of order estimated ≡ BudgetStatus.hard_blocked
unfolding budget_status_of evaluate_token_budget
over_limit order estimated h = ground (arith, h)

within_limit :
    (order : WorkOrder) (estimated : ℕ)
    → estimated ≤ order.token_budget.hard_limit
    → budget_rank (budget_status_of order estimated) ≤ 1
unfolding budget_status_of evaluate_token_budget
within_limit order estimated h = ground (arith, h)

-- The budget throws its error exactly when the estimate is over the hard limit and the ledger is
-- accepted; and it returns exactly when the estimate is within the limit and the ledger is
-- accepted. In both cases it leaves the same store, with the redacted ledger written and the redacted
-- decision, if that is accepted. With a refused ledger it throws the schema's error, whatever the
-- estimate, and writes nothing.
pub enforce_token_budget_cases :
    (env : Surroundings) (store : CostStore) (order : WorkOrder) (estimated : ℕ) (subject : String)
    (run_id : Option String)
    → (((env.accepts_ledger (budget_ledger env store order estimated run_id) ≡ true)
          × (order.token_budget.hard_limit < estimated))
        → enforce_token_budget env store order estimated subject run_id
          ≡ throws
              (budget_store env store order estimated subject run_id)
              (budget_error estimated order.token_budget.hard_limit))
      × (((env.accepts_ledger (budget_ledger env store order estimated run_id) ≡ true)
            × (estimated ≤ order.token_budget.hard_limit))
          → enforce_token_budget env store order estimated subject run_id
            ≡ returns (budget_store env store order estimated subject run_id) (
              budget_status_of order estimated,
              budget_decision env order estimated subject run_id,
            ))
      × ((env.accepts_ledger (budget_ledger env store order estimated run_id) ≡ false)
          → enforce_token_budget env store order estimated subject run_id
            ≡ throws store schema_error)
enforce_token_budget_cases env store order estimated subject run_id =
    let hard : ℕ = order.token_budget.hard_limit in
    let store' : CostStore = budget_store env store order estimated subject run_id in
    let d : CostDecision = budget_decision env order estimated subject run_id in
    let status : BudgetStatus = budget_status_of order estimated in
    (
      (λ (accepted, over).
          budget_accepted env store order estimated subject run_id accepted
          ∙ answer_blocked status store' d estimated hard (over_limit order estimated over)),
      (λ (accepted, within).
          budget_accepted env store order estimated subject run_id accepted
          ∙ answer_allowed status store' d estimated hard (within_limit order estimated within)),
      (λ refused. budget_refused env store order estimated subject run_id refused),
    )

-- The status of a call that returns.
abbrev returned_status : Outcome (BudgetStatus × CostDecision) → Option BudgetStatus
returned_status (returns store (status, d)) = some status
returned_status (throws store e) = none

within_soft :
    (order : WorkOrder) (estimated : ℕ)
    → estimated ≤ order.token_budget.hard_limit
    → (budget_status_of order estimated ≡ BudgetStatus.soft_warning)
      ↔ (order.token_budget.soft_limit < estimated)
unfolding budget_status_of evaluate_token_budget
within_soft order estimated h = ground (arith, h)

limit_cases : (n limit : ℕ) → (n ≤ limit) ⊎ (limit < n)
limit_cases n limit = ground arith

-- A call of the budget that returns had an estimate within the hard limit of the work order, and
-- its status is a warning exactly when the estimate is over the soft limit.
pub enforce_token_budget_safe :
    (env : Surroundings) (store store' : CostStore) (order : WorkOrder) (estimated : ℕ)
    (subject : String) (run_id : Option String) (status : BudgetStatus) (d : CostDecision)
    → enforce_token_budget env store order estimated subject run_id ≡ returns store' (status, d)
    → (estimated ≤ order.token_budget.hard_limit)
      × ((status ≡ BudgetStatus.soft_warning) ↔ (order.token_budget.soft_limit < estimated))
enforce_token_budget_safe env store store' order estimated subject run_id status d h =
    let seen : returned_status (enforce_token_budget env store order estimated subject run_id)
        ≡ some status =
      ap returned_status h in
    let (over, within, refused) =
      enforce_token_budget_cases env store order estimated subject run_id in
    elim (Bool-cases (env.accepts_ledger (budget_ledger env store order estimated run_id))) [
      | inr denied ↦ let nothing : none ≡ some status = rw (refused denied) at seen in cc nothing
      | inl accepted ↦ elim (limit_cases estimated order.token_budget.hard_limit) [
        | inr high ↦
            let nothing : none ≡ some status = rw (over (accepted, high)) at seen in cc nothing
        | inl low ↦
            let same : some (budget_status_of order estimated) ≡ some status =
              rw (within (accepted, low)) at seen in
            let equal : budget_status_of order estimated ≡ status = cc same in
            (low, rw (← equal) (within_soft order estimated low))
      ]
    ]
