-- ===== src/Execution/Commands.antt =====
-- The run that a command holds once it has loaded what is active.
use Prim.Native.String.{String}
use uads.Common.{Option, none, some, ◌==◌, string_eq, ◌≡◌, refl, inl, inr, Bool-cases}
use uads.Kernel.Types.{Checkpoint, ContextPlan, RoutingDecision, WorkOrder}
use uads.Kernel.Execution.{ExecutionRun, execution_phase_eq, execution_status_eq}
use uads.Execution.Store.{Store, World}
use uads.Execution.Persist.{current_run, run_at}
use uads.Execution.Run.{load_active, load_artifacts, with_packet}
use uads.Execution.Logic.{
  Runs, Triple, >>=-Triple, frame-Triple, needs, or_raise-IsFrame, or_raise-Triple, pure-Triple,
  raise_if-IsFrame, read-IsFrame, read-Triple,
}
use uads.Execution.Steps.{Origin, IsAt, IsKept}
use uads.Execution.Frames.{assert_active_execution_consistency-IsFrame}
use uads.Execution.Valid.{IsValid}

module _ (world : World) (start : Origin) where
  -- The run is stored as it is known, and well-formed.
  abbrev pub IsHeld : ExecutionRun → Runs → Type 0
  IsHeld run rs = IsAt world start run rs × IsValid run

  IsHeld-at :
      (id : String) (run : ExecutionRun) (rs : Runs)
      → IsKept world start rs
      → rs id ≡ some run
      → IsHeld run rs
  IsHeld-at id run rs kept e =
      let (valid, own, fixed) = kept.0 id run e in ((kept, rw (own, e) refl, rw own fixed), valid)

  IsHeld-of :
      (pointer : Option String) (run : ExecutionRun) (s : Store)
      → IsKept world start s.runs
      → run_at world pointer s ≡ some run
      → IsHeld run s.runs
  IsHeld-of none run s kept e = cc e
  IsHeld-of (some id) run s kept e = elim (Bool-cases (id == "")) [
    | inl blank ↦ let no : none ≡ some run = rw blank at e in cc no
    | inr filled ↦ IsHeld-at id run s.runs kept (rw filled at e)
  ]

  current_run-IsHeld :
      (run : ExecutionRun) (s : Store)
      → IsKept world start s.runs
      → current_run world s ≡ some run
      → IsHeld run s.runs
  unfolding current_run
  current_run-IsHeld run s kept e = IsHeld-of s.current_execution run s kept e

  load_packet :
      (run : ExecutionRun) (c : Checkpoint) (order : WorkOrder) (plan : ContextPlan)
      (routing : RoutingDecision)
      → Triple
          (IsKept world start)
          (IsHeld run)
          (with_packet world run c order plan routing)
          (λ active. IsHeld active.run)
  unfolding with_packet
  load_packet run c order plan routing =
      >>=-Triple (frame-Triple (λ rs i. i.0.0) (read-IsFrame _)) (λ some_packet.
        >>=-Triple (frame-Triple (λ rs i. i.0.0) (or_raise-IsFrame _ _)) (λ packet.
          >>=-Triple
            (frame-Triple (λ rs i. i.0.0)
              (assert_active_execution_consistency-IsFrame world c order routing run packet))
            (λ a. pure-Triple _ _ (λ rs i. i))))

  load_rest :
      (run : ExecutionRun) (found : Option Checkpoint)
      → Triple
          (IsKept world start)
          (IsHeld run)
          (load_artifacts world run found)
          (λ active. IsHeld active.run)
  unfolding load_artifacts
  load_rest run found = >>=-Triple (frame-Triple (λ rs i. i.0.0) (or_raise-IsFrame _ _)) (λ c.
      >>=-Triple (frame-Triple (λ rs i. i.0.0) (read-IsFrame _)) (λ some_order.
        >>=-Triple (frame-Triple (λ rs i. i.0.0) (read-IsFrame _)) (λ some_plan.
          >>=-Triple (frame-Triple (λ rs i. i.0.0) (read-IsFrame _)) (λ some_routing.
            >>=-Triple (frame-Triple (λ rs i. i.0.0) (or_raise-IsFrame _ _)) (λ order.
              >>=-Triple (frame-Triple (λ rs i. i.0.0) (or_raise-IsFrame _ _)) (λ plan.
                >>=-Triple (frame-Triple (λ rs i. i.0.0) (or_raise-IsFrame _ _))
                  (λ routing. load_packet run c order plan routing)))))))

  pub load_active-Triple :
      Triple
        (IsKept world start)
        (IsKept world start)
        (load_active world)
        (λ active. IsHeld active.run)
  unfolding load_active
  load_active-Triple = >>=-Triple (frame-Triple (λ rs i. i) (read-IsFrame _)) (λ found.
      >>=-Triple
        (read-Triple (current_run world)
          (λ present rs.
            IsKept world start rs × ((run : ExecutionRun) → present ≡ some run → IsHeld run rs))
          (λ s i. (i, (λ run e. current_run-IsHeld run s i e))))
        (λ present. >>=-Triple (frame-Triple (λ rs i. i.0) (raise_if-IsFrame _ _)) (λ a.
          >>=-Triple (or_raise-Triple present _ (λ rs i. i.0))
            (λ run. needs (λ rs ((i, held), e). held run e) (load_rest run found)))))
