-- ===== src/Execution/Blockers.antt =====
-- Lists of blockers that are empty: what then holds of each check of `runFinalize`.
use Prim.Native.String.{String}
use uads.Common.{
  Bool, false, not, ◌&&◌, ◌||◌, List, [], ◌∷◌, ◌++◌, Option, any, flat_map, append-nil_iff, ◌==◌,
  string_eq, if◌then◌else◌, arith, ◌≡◌, refl,
}
use uads.Kernel.Types.{WorkOrder}
use uads.Kernel.Execution.{
  ExecutionPhase, ExecutionRun, ExecutionStatus, execution_phase_eq, execution_status_eq,
}
use uads.Gates.Records.{EvidenceRecord, ReviewRecord}
use uads.Assurance.Types.{SelectionPlan}
use uads.Assurance.Binding.{is_nil}
use uads.Execution.Store.{World}
use uads.Execution.Run.{gate_states_of}
use uads.Execution.Finalize.{
  assurance_of, block_if, current_of, gate_blockers, independent_blockers, independent_of,
  is_passing_evidence, role_blockers, selection_blockers, finalize_blockers, run_blockers,
}

pub nil_of_is_nil : {A : Type 0} (xs : List A) → not (is_nil xs) ≡ false → xs ≡ []
nil_of_is_nil [] h = refl
nil_of_is_nil (x ∷ xs) h = cc h

pub block_if-nil : (c : Bool) (text : String) → block_if c text ≡ [] → c ≡ false
block_if-nil c text h = ground (arith, h)

-- One check of a chain of blockers, and the rest.
pub block_first :
    (c : Bool) (text : String) (rest : List String)
    → block_if c text ++ rest ≡ []
    → (c ≡ false) × (rest ≡ [])
block_first c text rest h =
    let (here, later) = (append-nil_iff (block_if c text) rest).0 h in
    (block_if-nil c text here, later)

module _ (world : World) where
  pub run_blockers-phase :
      (order : WorkOrder) (run : ExecutionRun) (live : String)
      → run_blockers world order run live ≡ []
      → ((run.phase == ExecutionPhase.implement)
          || ((run.phase == ExecutionPhase.verify)
              || (run.status == ExecutionStatus.correction_needed)))
        ≡ false
  unfolding run_blockers
  run_blockers-phase order run live h =
      let (digest, h) = block_first _ _ _ h in let (phase, h) = block_first _ _ _ h in phase

  -- Where nothing stands against completion, none of the parts does.
  pub finalize_blockers-nil :
      (order : WorkOrder) (run : ExecutionRun) (live : String) (evidence : List EvidenceRecord)
      (reviews : List ReviewRecord) (selection : Option SelectionPlan)
      → finalize_blockers world order run live evidence reviews selection ≡ []
      → (run_blockers world order run live ≡ [])
        × (selection_blockers selection ≡ [])
        × ((assurance_of world order run evidence reviews selection).blockers ≡ [])
        × (flat_map (gate_blockers run.selected_gates) (gate_states_of world run evidence reviews)
            ≡ [])
        × (independent_blockers run live (independent_of world run reviews) ≡ [])
        × (flat_map (role_blockers (current_of world run reviews)) run.required_reviewers ≡ [])
        × ((not (is_nil order.acceptance_criteria)
              && not (any (is_passing_evidence run.current_change_digest) evidence))
            ≡ false)
        × ((if not (is_nil run.blockers) && (run.status == ExecutionStatus.blocked)
              then run.blockers
              else [])
            ≡ [])
  unfolding finalize_blockers
  finalize_blockers-nil order run live evidence reviews selection h =
      let (a, h) = (append-nil_iff (run_blockers world order run live) _).0 h in
      let (b, h) = (append-nil_iff (selection_blockers selection) _).0 h in
      let (c, h) =
        (append-nil_iff (assurance_of world order run evidence reviews selection).blockers _).0 h in
      let (d, h) =
        (append-nil_iff
            (flat_map (gate_blockers run.selected_gates)
              (gate_states_of world run evidence reviews))
            _).0
          h in
      let (e, h) =
        (append-nil_iff (independent_blockers run live (independent_of world run reviews)) _).0 h in
      let (f, h) =
        (append-nil_iff
            (flat_map (role_blockers (current_of world run reviews)) run.required_reviewers) _).0
          h in
      let (g, h) = block_first _ _ _ h in (a, b, c, d, e, f, g, h)
