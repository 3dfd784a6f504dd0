-- ===== src/Execution/Ready.antt =====
-- What holds of a run that nothing stands against: the checks of `runFinalize` of
-- src/kernel/execution.ts and the assurance policy that it asks.
use Prim.Native.String.{String}
use uads.Common.{
  true_of_not, All, All-map, Bool, true, false, not, ◌&&◌, ◌||◌, List, [], ◌∷◌, Option, none, some,
  any, flat_map-nil, ◌==◌, string_eq, if◌then◌else◌, arith, ◌≡◌, refl,
}
use uads.Common.Nullable.{has_text, same_nullable}
use uads.Kernel.Types.{WorkOrder}
use uads.Kernel.Execution.{
  ExecutionPhase, ExecutionRun, ExecutionStatus, execution_phase_eq, execution_status_eq,
}
use uads.Gates.Records.{
  EvidenceRecord, GateRuntimeStatus, GateStateSnapshot, ReviewRecord, ReviewVerdict, verdict_eq,
}
use uads.Gates.States.{same_text}
use uads.Assurance.Types.{AssuranceMode, SelectionPlan}
use uads.Assurance.Binding.{is_nil}
use uads.Assurance.Policy.{required_roles_of}
use uads.Assurance.Finalize.{IsApprovedBy, evaluate_assurance_policy-finalize}
use uads.Assurance.Silent.{allowed_of_blockers}
use uads.Execution.Store.{World}
use uads.Execution.Run.{gate_states_of, requires_implementation}
use uads.Execution.Assure.{policy_env, policy_input}
use uads.Execution.Finalize.{
  finalize_blockers, gate_blockers, independent_blockers, independent_of, is_passing_evidence,
  run_blockers,
}
use uads.Execution.Blockers.{block_first, block_if-nil, finalize_blockers-nil, nil_of_is_nil}

decided :
    (v : ReviewVerdict) (corrected open_text : String) (rest : List String)
    → (if v == ReviewVerdict.correction_needed
        then corrected ∷ []
        else if not (v == ReviewVerdict.approved)
        then open_text ∷ []
        else rest)
      ≡ []
    → (v ≡ ReviewVerdict.approved) × (rest ≡ [])
decided ReviewVerdict.approved c o rest h = (refl, h)
decided ReviewVerdict.correction_needed c o rest h = cc h
decided ReviewVerdict.review_blocked c o rest h = cc h

both_hold : (a b : Bool) → not a ≡ false → (a && not b) ≡ false → b ≡ true
both_hold a b h k = ground arith

module _ (world : World) where
  -- Nothing open: a digest that the work tree still has, no scope violation, every gate at PASS,
  -- acceptance evidence where criteria are set, an independent approval of the digest by another
  -- session, and for every required role one that the assurance policy counts.
  abbrev pub IsReady :
      WorkOrder
      → ExecutionRun
      → String
      → List EvidenceRecord
      → List ReviewRecord
      → Option SelectionPlan
      → Type 0
  IsReady order run live evidence reviews selection =
      let gates : List GateStateSnapshot = gate_states_of world run evidence reviews in
      let input =
        policy_input world AssuranceMode.finalize order run gates evidence reviews none selection in
      (same_text live run.current_change_digest ≡ true)
      × (run.scope_violations ≡ [])
      × All (λ (g : GateStateSnapshot). g.status ≡ GateRuntimeStatus.pass) gates
      × (is_nil order.acceptance_criteria ≡ false
          → any (is_passing_evidence run.current_change_digest) evidence ≡ true)
      × ((r : ReviewRecord) × (independent_of world run reviews ≡ some r)
          × (r.verdict ≡ ReviewVerdict.approved)
          × ((r.review_session_id == r.implementer_session_id) ≡ false)
          × (live ≡ r.change_digest))
      × All (λ role. (r : ReviewRecord) × IsApprovedBy (policy_env world) input role r)
          (required_roles_of (policy_env world) input)

  independent_approved :
      (run : ExecutionRun) (live : String) (found : Option ReviewRecord)
      → independent_blockers run live found ≡ []
      → (r : ReviewRecord) × (found ≡ some r)
        × (r.verdict ≡ ReviewVerdict.approved)
        × ((r.review_session_id == r.implementer_session_id) ≡ false)
        × (live ≡ r.change_digest)
  unfolding independent_blockers
  independent_approved run live none h = cc h
  independent_approved run live (some r) h =
      let (approved, h) = decided r.verdict _ _ _ h in
      let (role, h) =
        block_first (r.reviewer_role == r.implementer_role) "implementer self-review" _ h in
      let (session, h) =
        block_first (r.review_session_id == r.implementer_session_id)
          "same implementer/reviewer session" _ h in
      let (authority, h) =
        block_first
          (has_text run.implementer_session_id
            && not (same_nullable (some r.implementer_session_id) run.implementer_session_id))
          "review does not carry the authoritative implementer session" _ h in
      let (reviewed, h) =
        block_first
          (has_text run.reviewed_change_digest
            && not (same_nullable run.reviewed_change_digest run.current_change_digest))
          "reviewed digest does not match current digest" _ h in
      let live_digest : (live == r.change_digest) ≡ true = true_of_not _ (
        block_if-nil (not (live == r.change_digest))
          "current git digest differs from reviewed digest" h) in
      (r, refl, approved, session, (string_eq.beq_iff live r.change_digest).0 live_digest)

  gate_passed :
      (selected : List String) (g : GateStateSnapshot)
      → gate_blockers selected g ≡ []
      → g.status ≡ GateRuntimeStatus.pass
  unfolding gate_blockers
  gate_passed selected g h = ground (arith, h)

  run_clean :
      (order : WorkOrder) (run : ExecutionRun) (live : String)
      → run_blockers world order run live ≡ []
      → (same_text live run.current_change_digest ≡ true) × (run.scope_violations ≡ [])
  unfolding run_blockers
  run_clean order run live h =
      let (digest, h) =
        block_first (not (has_text run.current_change_digest)) "missing change digest" _ h in
      let (phase, h) =
        block_first
          ((run.phase == ExecutionPhase.implement)
            || ((run.phase == ExecutionPhase.verify)
                || (run.status == ExecutionStatus.correction_needed)))
          "cannot finalize before independent review" _ h in
      let (session, h) =
        block_first (requires_implementation order && not (has_text run.implementer_session_id))
          "missing authoritative implementer session" _ h in
      let (live_digest, h) =
        block_first
          (has_text run.current_change_digest && not (same_text live run.current_change_digest))
          "current git digest differs from verified digest" _ h in
      (
        both_hold (has_text run.current_change_digest) (same_text live run.current_change_digest)
            digest live_digest,
        nil_of_is_nil run.scope_violations (
            block_if-nil (not (is_nil run.scope_violations))
              "unresolved out-of-scope or sensitive changes" h),
      )

  pub finalize_blockers-IsReady :
      (order : WorkOrder) (run : ExecutionRun) (live : String) (evidence : List EvidenceRecord)
      (reviews : List ReviewRecord) (selection : Option SelectionPlan)
      → finalize_blockers world order run live evidence reviews selection ≡ []
      → IsReady order run live evidence reviews selection
  finalize_blockers-IsReady order run live evidence reviews selection h =
      let gates : List GateStateSnapshot = gate_states_of world run evidence reviews in
      let input =
        policy_input world AssuranceMode.finalize order run gates evidence reviews none selection in
      let (first, b, c, d, e, f, g, own) =
        finalize_blockers-nil world order run live evidence reviews selection h in
      let (live_digest, clean) = run_clean order run live first in
      (
        live_digest,
        clean,
        All-map gates (gate_passed run.selected_gates)
            (flat_map-nil (gate_blockers run.selected_gates) gates d),
        (λ k. ground (arith, k, g)),
        independent_approved run live (independent_of world run reviews) e,
        evaluate_assurance_policy-finalize (policy_env world) input refl
            (allowed_of_blockers (policy_env world) input c),
      )
