-- ===== src/Execution/Hindered.antt =====
-- What `runFinalize` of src/kernel/execution.ts collects, and that no hindrance is missing from it.
use Prim.Native.String.{String}
use mathlib.Core.List.{Memᴰ}
use uads.Common.{
  Bool, true, false, not, ◌||◌, ◌&&◌, inl, inr, List, [], Option, none, some, any, flat_map,
  contains, All-filter, All-Memᴰ, All_of_Memᴰ, ◌==◌, string_eq, if◌then◌else◌, arith, ◌≡◌, ◌≢◌,
  refl, Bool-cases,
}
use uads.Common.Find.{find-none_iff}
use uads.Kernel.Types.{WorkOrder, independent_reviewer_role}
use uads.Kernel.Execution.{ExecutionRun, ExecutionStatus, execution_phase_eq, execution_status_eq}
use uads.Gates.Records.{
  EvidenceRecord, EvidenceRuntimeStatus, GateStateSnapshot, ReviewRecord, ReviewVerdict,
  evidence_status_eq, verdict_eq,
}
use uads.Gates.States.{same_text}
use uads.Assurance.Types.{SelectionPlan}
use uads.Assurance.Binding.{is_nil}
use uads.Execution.Store.{World}
use uads.Execution.Run.{gate_states_of}
use uads.Execution.Finalize.{
  assurance_of, block_if, current_of, finalize_blockers, gate_blockers, independent_blockers,
  independent_of, is_passing_evidence, role_blockers, run_blockers, selection_blockers,
}
use uads.Execution.Hindrances.{Hindrance, in_flat_map}
use uads.Execution.Checks.{
  blocked_blocker, both_true, differs, digest_blocker, eight_parts, failed_blocker,
  independent_missing, live_blocker, no_member, not_nil, of_digest, one_blocker, pending_blocker,
  phase_blocker, role_missing, correction_wanted, approval_refused, session_shared, review_outdated,
  scope_blocker, session_blocker,
}

module _ (world : World) (order : WorkOrder) (run : ExecutionRun) (live : String)
    (evidence : List EvidenceRecord) (reviews : List ReviewRecord)
    (selection : Option SelectionPlan) where
  abbrev lacks_evidence : Bool
  lacks_evidence =
      not (is_nil order.acceptance_criteria)
      && not (any (is_passing_evidence run.current_change_digest) evidence)

  -- A text stands in what is collected if one of the checks gives it.
  collected :
      (text : String)
      → (contains (run_blockers world order run live) text
          || (contains
                (flat_map
                  (gate_blockers run.selected_gates)
                  (gate_states_of world run evidence reviews))
                text
              || (contains (independent_blockers run live (independent_of world run reviews)) text
                  || (contains
                        (flat_map
                          (role_blockers (current_of world run reviews))
                          run.required_reviewers)
                        text
                      || contains
                          (block_if lacks_evidence "required acceptance evidence missing")
                          text))))
        ≡ true
      → contains (finalize_blockers world order run live evidence reviews selection) text ≡ true
  unfolding finalize_blockers
  collected text h =
      let stated =
        eight_parts (run_blockers world order run live) (selection_blockers selection)
          (assurance_of world order run evidence reviews selection).blockers
          (flat_map (gate_blockers run.selected_gates) (gate_states_of world run evidence reviews))
          (independent_blockers run live (independent_of world run reviews))
          (flat_map (role_blockers (current_of world run reviews)) run.required_reviewers)
          (block_if lacks_evidence "required acceptance evidence missing")
          (if not (is_nil run.blockers) && (run.status == ExecutionStatus.blocked)
            then run.blockers
            else [])
          text in
      rw stated (ground (arith, h))

  by_gate :
      (g : GateStateSnapshot) (text : String)
      → Memᴰ g (gate_states_of world run evidence reviews)
      → contains (gate_blockers run.selected_gates g) text ≡ true
      → contains (finalize_blockers world order run live evidence reviews selection) text ≡ true
  by_gate g text m h =
      let found =
        in_flat_map (gate_blockers run.selected_gates) (gate_states_of world run evidence reviews) g
          text m h in
      collected text (ground (arith, found))

  -- The reviews of the digest are among the reviews.
  of_current :
      (r : ReviewRecord)
      → Memᴰ r (current_of world run reviews)
      → Memᴰ r reviews × (run.current_change_digest ≡ some r.change_digest)
  of_current r m =
      let (member, same) =
        All_of_Memᴰ
          (λ (x : ReviewRecord).
            Memᴰ x reviews × (same_text x.change_digest run.current_change_digest ≡ true))
          (All-filter (λ x. Memᴰ x reviews)
            (λ (x : ReviewRecord). same_text x.change_digest run.current_change_digest) reviews
            (All-Memᴰ reviews))
          m in
      (member, of_digest run.current_change_digest r.change_digest same)

  none_independent :
      ((r : ReviewRecord)
        → Memᴰ r reviews
        → run.current_change_digest ≡ some r.change_digest
        → r.reviewer_role ≢ independent_reviewer_role)
      → independent_of world run reviews ≡ none
  none_independent h =
      (find-none_iff (λ (r : ReviewRecord). r.reviewer_role == independent_reviewer_role)
          (current_of world run reviews)).1
        (no_member _ (current_of world run reviews) (λ r m.
          let (member, same) = of_current r m in
          differs r.reviewer_role independent_reviewer_role (h r member same)))

  not_approving :
      (role : String)
      → ((r : ReviewRecord)
          → Memᴰ r reviews
          → run.current_change_digest ≡ some r.change_digest
          → r.reviewer_role ≡ role
          → r.verdict ≢ ReviewVerdict.approved)
      → (r : ReviewRecord) → Memᴰ r (current_of world run reviews)
      → ((r.reviewer_role == role) && (r.verdict == ReviewVerdict.approved)) ≡ false
  not_approving role h r m =
      let (member, same) = of_current r m in
      let other = h r member same in
      elim (Bool-cases (r.reviewer_role == role)) [
        | inr apart ↦ rw apart refl
        | inl of_role ↦
            let refused = other ((string_eq.beq_iff r.reviewer_role role).0 of_role) in
            elim (Bool-cases (r.verdict == ReviewVerdict.approved)) [
              | inl holds_here ↦
                  absurd
                    (refused ((verdict_eq.beq_iff r.verdict ReviewVerdict.approved).0 holds_here))
              | inr fails ↦ rw fails (ground arith)
            ]
      ]

  nothing_passing :
      ((e : EvidenceRecord)
        → Memᴰ e evidence
        → run.current_change_digest ≡ some e.change_digest
        → e.status ≢ EvidenceRuntimeStatus.evidence_pass)
      → any (is_passing_evidence run.current_change_digest) evidence ≡ false
  nothing_passing h = no_member _ evidence (λ e m.
      elim (Bool-cases (is_passing_evidence run.current_change_digest e)) [
        | inr fails ↦ fails
        | inl holds_here ↦
            let (same, pass) = both_true _ _ holds_here in
            absurd (
              h e m (of_digest run.current_change_digest e.change_digest same)
                ((evidence_status_eq.beq_iff e.status EvidenceRuntimeStatus.evidence_pass).0 pass))
      ])

  by_review :
      (r : ReviewRecord) (text : String)
      → independent_of world run reviews ≡ some r
      → contains (independent_blockers run live (some r)) text ≡ true
      → contains (finalize_blockers world order run live evidence reviews selection) text ≡ true
  by_review r text first h =
      let found : contains (independent_blockers run live (independent_of world run reviews)) text
          ≡ true =
        rw first h in
      collected text (ground (arith, found))

  -- What hinders the completion is collected.
  pub hindered :
      (text : String)
      → Hindrance world order run live evidence reviews text
      → contains (finalize_blockers world order run live evidence reviews selection) text ≡ true
  hindered text (Hindrance.undigested h) =
      collected text (ground (arith, digest_blocker world order run live h))
  hindered text (Hindrance.unverified (inl h)) =
      collected text (ground (arith, phase_blocker world order run live (rw h refl)))
  hindered text (Hindrance.unverified (inr h)) =
      collected text (ground (arith, phase_blocker world order run live (rw h refl)))
  hindered text (Hindrance.to_be_corrected h) =
      collected text (ground (arith, phase_blocker world order run live (ground (arith, h))))
  hindered text (Hindrance.unbound h k) =
      collected text (ground (arith, session_blocker world order run live h k))
  hindered text (Hindrance.moved d h filled other) =
      collected text (ground (arith, live_blocker world order run live d h filled other))
  hindered text (Hindrance.out_of_scope h) =
      collected text
        (ground (arith, scope_blocker world order run live (not_nil run.scope_violations h)))
  hindered text (Hindrance.pending_gate g m h) =
      by_gate g text m (pending_blocker run.selected_gates g h)
  hindered text (Hindrance.failed_gate g m h) =
      by_gate g text m (failed_blocker run.selected_gates g h)
  hindered text (Hindrance.blocked_gate g m h) =
      by_gate g text m (blocked_blocker run.selected_gates g h)
  hindered text (Hindrance.unreviewed h) = collected text (
      ground (
        arith,
        independent_missing run live (independent_of world run reviews) (none_independent h),
      ))
  hindered text (Hindrance.corrected r first h) =
      by_review r text first (correction_wanted run live r h)
  hindered text (Hindrance.refused r first h) =
      by_review r text first (approval_refused run live r h)
  hindered text (Hindrance.self_reviewed r first h same) = by_review r text first (
      session_shared run live r h
        ((string_eq.beq_iff r.review_session_id r.implementer_session_id).1 same))
  hindered text (Hindrance.moved_since_review r first h other) =
      by_review r text first (review_outdated run live r h (differs live r.change_digest other))
  hindered text (Hindrance.unapproved_role role m h) =
      let found =
        in_flat_map (role_blockers (current_of world run reviews)) run.required_reviewers role text
          m (role_missing (current_of world run reviews) role (not_approving role h)) in
      collected text (ground (arith, found))
  hindered text (Hindrance.unproven h k) =
      let lacking : lacks_evidence ≡ true =
        rw (not_nil order.acceptance_criteria h) (rw (nothing_passing k) refl) in
      collected text
        (ground (arith, one_blocker lacks_evidence "required acceptance evidence missing" lacking))
