-- ===== src/Execution/Store.antt =====
-- The sidecar's files that the commands of src/kernel/execution.ts read and write, what a command
-- takes from its surroundings, and a command as an action on the store that may throw. What was
-- written before an error stays written.
use Prim.Native.String.{String}
use uads.Common.{
  ℕ, Bool, true, false, List, [], ◌∷◌, Option, none, some, ◌==◌, string_eq, if◌then◌else◌, ◌&◌,
  decimal,
}
use uads.Common.Int.{ℤ}
use uads.Kernel.Types.{Checkpoint, ContextPlan, ContextRadius, RoutingDecision, WorkOrder}
use uads.Kernel.Execution.{ChangeSet, ExecutionPacket, ExecutionRun}
use uads.Gates.Records.{EvidenceRecord, GateStateSnapshot, ReviewRecord}
use uads.Gates.States.{Validation}
use uads.Assurance.Types.{SelectionPlan}
use uads.Cost.Types.{
  CostError, CostStore, Outcome, Surroundings, budget_error, returns, schema_error, throws,
}

-- A directory of JSON files, each under the id of what it holds.
abbrev pub Files : Type 0 → Type 0
Files A = String → Option A

abbrev pub put : {A : Type 0} → String → A → Files A → Files A
put id a files key = if id == key then some a else files key

-- The review packet that `uads assurance start` leaves for the reviewers.
pub record ReviewPacket : Type 0 where
  pub execution_run_id : String
  pub work_order_id : String
  pub objective : String
  pub acceptance_criteria : List String
  pub included_scope : List String
  pub out_of_scope : List String
  pub changed_files : List String
  pub change_digest : String
  pub gate_states : List GateStateSnapshot
  pub evidence_refs : List String
  pub required_reviewers : List String
  pub role_to_gate_mapping : List (String × List String)
  pub required_evidence_obligations : List String
  pub unresolved_blockers : List String
  pub next_action : String

-- Evidence and reviews are kept by the run that they are of.
pub record Store : Type 0 where
  pub checkpoint : Option Checkpoint
  pub work_orders : Files WorkOrder
  pub routing_decisions : Files RoutingDecision
  pub context_plan : Option ContextPlan
  pub current_execution : Option String
  pub runs : Files ExecutionRun
  pub packets : Files ExecutionPacket
  pub review_packets : Files ReviewPacket
  pub evidence : String → List EvidenceRecord
  pub reviews : String → List ReviewRecord
  pub costs : CostStore

-- `ExecutionBlockedError` with its blockers, `InvalidOrchestrationStateError`, or another error.
pub data ExecutionError : Type 0 where
  execution_blocked : String → List String → ExecutionError
  invalid_orchestration_state : String → ExecutionError
  other_error : String → ExecutionError

pub data Result (A : Type 0) : Type 0 where
  returned : A → Result A
  thrown : ExecutionError → Result A

abbrev pub Action : Type 0 → Type 0
Action A = Store → Result A × Store

module _ {A : Type 0} where
  abbrev pub pure : A → Action A
  pure a s = (returned a, s)

  abbrev pub raise : ExecutionError → Action A
  raise e s = (thrown e, s)

  abbrev pub read : (Store → A) → Action A
  read f s = (returned (f s), s)

  -- `if (x === null) throw e`
  abbrev pub or_raise : Option A → ExecutionError → Action A
  or_raise none e = raise e
  or_raise (some a) e = pure a

abbrev pub after : {A B : Type 0} → (A → Action B) → Result A × Store → Result B × Store
after f (returned a, s) = f a s
after f (thrown e, s) = (thrown e, s)

infixl 5 ◌>>=◌ ◌>>◌
unfoldable pub ◌>>=◌ : {A B : Type 0} → Action A → (A → Action B) → Action B
◌>>=◌ m f s = after f (m s)

abbrev pub ◌>>◌ : {A B : Type 0} → Action A → Action B → Action B
m >> k = m >>= λ _. k

-- `if (c) { ... }` for the effect alone
abbrev pub when : Bool → Action (Unit {0}) → Action (Unit {0})
when true m = m
when false m = pure tt

-- `if (c) throw e`
abbrev pub raise_if : Bool → ExecutionError → Action (Unit {0})
raise_if true e = raise e
raise_if false e = pure tt

abbrev pub write : (Store → Store) → Action (Unit {0})
write f s = (returned tt, f s)

-- A call of the cost governor: its part of the store, and its errors as this module rethrows them.
abbrev pub rethrow : CostError → ExecutionError
rethrow schema_error = other_error "schema: cost-ledger"
rethrow (budget_error estimated hard) =
    execution_blocked
      ("hard token budget exceeded: estimated " & decimal estimated & " > hard " & decimal hard)
      ("hard token budget exceeded" ∷ [])

abbrev pub lift_outcome : {A : Type 0} → Store → Outcome A → Result A × Store
lift_outcome s (returns costs a) = (returned a, record s { costs = costs })
lift_outcome s (throws costs e) = (thrown (rethrow e), record s { costs = costs })

abbrev pub governor : {A : Type 0} → (CostStore → Outcome A) → Action A
governor call s = lift_outcome s (call s.costs)

-- What `buildImpactAndPack` gives that the commands read.
pub record Intel : Type 0 where
  pub context_pack_id : String
  pub impact_report_id : String
  pub index_digest : String
  pub estimated_tokens : ℕ

-- What a call finds around it and does not compute itself: the time, the redaction of secrets, the
-- digests of ids, the orders of texts, whether the schemas accept a record, the change set of the
-- work tree, and what the modules beside this one answer.
pub record World : Type 0 where
  pub now : String
  pub project_id : String  -- `ctx.projectId`
  pub redact : String → String  -- `sanitizeOperationalText`
  pub digest : String → String  -- the hexadecimal digits of `newPrefixedId`
  pub locale_compare : String → String → ℤ
  pub name_compare : String → String → ℤ  -- the order of file names
  pub plan_digest : SelectionPlan → String
  pub accepts_run : ExecutionRun → Bool
  pub accepts_packet : ExecutionPacket → Bool
  pub accepts_evidence : EvidenceRecord → Bool
  pub accepts_review : ReviewRecord → Bool
  pub accepts_review_packet : ReviewPacket → Bool
  pub accepts_plan : WorkOrder → RoutingDecision → Checkpoint → Bool
  pub change_set : WorkOrder → ContextPlan → ChangeSet  -- `buildChangeSet`
  pub valid_reuse : Validation → String → Option String → EvidenceRecord → Bool
  pub bound_selection : WorkOrder → Option RoutingDecision → ContextPlan → Option SelectionPlan
      -- `assertSpecialistSelectionBoundToWorkOrder`, `none` where it throws
  pub cache_hits : ExecutionRun → List GateStateSnapshot → List EvidenceRecord
      -- the records of `applyEligibleCacheHits`
  pub cache_misses : ExecutionRun → List GateStateSnapshot → ℕ
  pub candidates_at : ContextRadius → WorkOrder → Option (List String)
      -- `selectContextCandidates`, `none` where no repository map is readable
  pub intel_at : ContextRadius → WorkOrder → ExecutionRun → Option Intel  -- `none` where it throws
  pub copy_output : ExecutionRun → String → String → Result (String × String)
      -- `copySanitizedOutput` of a path: the reference and the digest of the copy
  pub hash_file : String → Result (String × String)  -- `hashProjectFileEvidence`
  pub costs : Surroundings
