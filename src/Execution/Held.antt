-- ===== src/Execution/Held.antt =====
-- A command and the run that it holds, which it writes moved on.
use uads.Common.{true, not, ◌||◌, List, [], ◌∷◌, Option, ◌==◌, string_eq, arith, ◌≡◌, ◌≢◌, refl}
use uads.Kernel.Execution.{
  ChangeSet, ExecutionPacket, ExecutionPhase, ExecutionRun, ExecutionStatus, ScopeViolation,
  execution_phase_eq, execution_status_eq,
}
use uads.Assurance.Binding.{is_nil}
use uads.Execution.Store.{Action, Result, Store, World, returned, thrown}
use uads.Execution.Persist.{persist_execution_run}
use uads.Execution.Verify.{can_verify, unchanged_run, violating_run}
use uads.Execution.Lifecycle.{
  by_verify, IsOpen, Course, is_live, move, open_live, open_implementing, open_reviewing,
  open_verifying, stage_of, stage_of_phase, stay, violated,
}
use uads.Execution.Logic.{Ends, Runs, Triple}
use uads.Execution.Steps.{Origin, IsAt, IsKept, persist_execution_run-Triple}
use uads.Execution.Valid.{IsValid}
use uads.Execution.Commands.{IsHeld}

IsOpen-of :
    (p : ExecutionPhase) (s : ExecutionStatus)
    → ((p == ExecutionPhase.implement)
        || ((p == ExecutionPhase.verify)
            || ((p == ExecutionPhase.review) || (s == ExecutionStatus.correction_needed))))
      ≡ true
    → (s ≡ ExecutionStatus.correction_needed → p ≡ ExecutionPhase.implement)
    → IsOpen (stage_of_phase p s)
IsOpen-of ExecutionPhase.implement s h c = open_implementing
IsOpen-of ExecutionPhase.verify s h c = open_verifying
IsOpen-of ExecutionPhase.review s h c = open_reviewing
IsOpen-of ExecutionPhase.stopped s h c = absurd (ground (arith, h, c))

can_verify-IsOpen :
    (run : ExecutionRun) → can_verify run ≡ true → IsValid run → IsOpen (stage_of run)
unfolding can_verify
can_verify-IsOpen run h v = IsOpen-of run.phase run.status h v.1

stopped_closed :
    (s : ExecutionStatus) → is_live (stage_of_phase ExecutionPhase.stopped s) ≡ true → ⊥
stopped_closed s h = ground (arith, h)

-- Blocking an open run where it is leaves it at its stage.
blocked_stage :
    (p : ExecutionPhase) (s : ExecutionStatus)
    → IsOpen (stage_of_phase p s)
    → Course by_verify (stage_of_phase p s) (stage_of_phase p ExecutionStatus.blocked)
blocked_stage ExecutionPhase.implement s o = stay
blocked_stage ExecutionPhase.verify s o = stay
blocked_stage ExecutionPhase.review s o = stay
blocked_stage ExecutionPhase.stopped s o = absurd (stopped_closed s (open_live o))

pub some_violation : (vs : List ScopeViolation) → not (is_nil vs) ≡ true → vs ≢ []
some_violation [] h e = cc h
some_violation (v ∷ vs) h e = cc e

module _ (world : World) (start : Origin) where
  abbrev pub Keeps : {A : Type 0} → Action A → Type 0
  Keeps m = Triple (IsKept world start) (IsKept world start) m (λ a. IsKept world start)

  -- What is known of a held run, and that it can be verified.
  abbrev pub IsVerifiable : ExecutionRun → Runs → Type 0
  IsVerifiable run rs = IsHeld world start run rs × (can_verify run ≡ true)

  pub verifiable-IsOpen :
      (run : ExecutionRun) (rs : Runs) → IsVerifiable run rs → IsOpen (stage_of run)
  verifiable-IsOpen run rs ((at_stage, valid), ready) = can_verify-IsOpen run ready valid

  add_valid :
      (next : ExecutionRun)
      → IsValid next
      → (o : Result (Unit {0}) × Store) → Ends (IsKept world start) (λ a. IsAt world start next) o
      → Ends (IsKept world start) (λ a. IsHeld world start next) o
  add_valid next valid (returned a, s) h = (h, valid)
  add_valid next valid (thrown e, s) h = h

  pub unchanged_run-id :
      (run : ExecutionRun) → (unchanged_run world run).execution_run_id ≡ run.execution_run_id
  unfolding unchanged_run
  unchanged_run-id run = refl

  pub unchanged-Course :
      (run : ExecutionRun)
      → IsOpen (stage_of run)
      → Course by_verify (stage_of run) (stage_of (unchanged_run world run))
  unfolding unchanged_run
  unchanged-Course run o = blocked_stage run.phase run.status o

  pub violating_run-id :
      (run : ExecutionRun) (changes : ChangeSet)
      → (violating_run world run changes).execution_run_id ≡ run.execution_run_id
  unfolding violating_run
  violating_run-id run changes = refl

  pub violating-Course :
      (run : ExecutionRun) (changes : ChangeSet)
      → IsOpen (stage_of run)
      → Course by_verify (stage_of run) (stage_of (violating_run world run changes))
  unfolding violating_run
  violating-Course run changes o = move (violated o) stay

  persist-IsHeld :
      (run next : ExecutionRun) (packet : Option ExecutionPacket)
      → next.execution_run_id ≡ run.execution_run_id
      → IsValid next
      → Course start.0 (stage_of run) (stage_of next)
      → Triple
          (IsKept world start)
          (IsAt world start run)
          (persist_execution_run world next packet)
          (λ a. IsHeld world start next)
  persist-IsHeld run next packet same valid path = record {
    ends = λ s i.
        add_valid next valid (persist_execution_run world next packet s)
          ((persist_execution_run-Triple world start run next packet same valid path).ends s i);
  }

  -- To write a run that moved on from the run held, all of which may depend on what is known of it.
  pub persist_next :
      (run next : ExecutionRun) (packet : Option ExecutionPacket) (known : Runs → Type 0)
      → next.execution_run_id ≡ run.execution_run_id
      → ((rs : Runs)
          → IsHeld world start run rs × known rs
          → IsValid next × Course start.0 (stage_of run) (stage_of next))
      → Triple
          (IsKept world start)
          (λ rs. IsHeld world start run rs × known rs)
          (persist_execution_run world next packet)
          (λ a rs. IsHeld world start next rs)
  persist_next run next packet known same h = record {
    ends = λ s i.
        let (valid, path) = h s.runs i in
        (persist-IsHeld run next packet same valid path).ends s i.0.0;
  }
