-- ===== src/Assurance/Finalize.antt =====
-- What the consent of `evaluateAssurancePolicy` rests on.
use Prim.Native.String.{String}
use uads.Common.{
  true_of_not, All, All-map, All-filter, All-Memᴰ, All-both, All_of_Memᴰ, Bool, true, false, not,
  List, [], ◌∷◌, map, any, filter, flat_map, flat_map-nil, any-witness, append-nil_iff, contains,
  string_eq, arith, ◌≡◌, refl, Memᴰ,
}
use uads.Common.Nullable.{has_text}
use uads.Common.Find.{All-of_contains}
use uads.Kernel.Execution.{ScopeViolation}
use uads.Gates.Registry.{is_review_gate}
use uads.Gates.Records.{
  EvidenceRecord, GateRuntimeStatus, GateStateSnapshot, ReviewFinding, ReviewRecord, ReviewVerdict,
  is_severe, verdict_eq,
}
use uads.Assurance.Types.{AssuranceMode, AssurancePolicyInput, PolicyEnv}
use uads.Assurance.Roles.{blocker_text, is_recognized_assurance_role}
use uads.Assurance.Binding.{
  current_evidence, current_reviews, review_identity_matches, typed_selection_plan_is_valid,
  with_candidate,
}
use uads.Assurance.Reviews.{is_of_role, loop_objections, nothing_seen}
use uads.Assurance.Policy.{
  approvals_in, evaluate_assurance_policy, finalize_objections, gate_objections, mode_objections,
  objections_in_mode, objections_of, pending_roles_of, required_roles_of, run_objections, same_set,
  satisfied_roles_of,
}
use uads.Assurance.Sound.{
  IsConsistent, IsIndependent, check_first, loop_objections-nil, object_if-nil,
}
use uads.Assurance.Apart.{AllApart, loop_objections-AllApart}
use uads.Assurance.Approvals.{first_holds, filter-nil_all, map-nil, nil_of, Approved, All-loop_seen}

module _ (env : PolicyEnv) where
  allowed-nil :
      (input : AssurancePolicyInput)
      → (evaluate_assurance_policy env input).allowed ≡ true
      → objections_of env input ≡ []
  unfolding evaluate_assurance_policy
  allowed-nil input h =
      map-nil blocker_text (objections_of env input)
        (nil_of (map blocker_text (objections_of env input)) h)

  objections_of-nil :
      (input : AssurancePolicyInput)
      → objections_of env input ≡ []
      → (run_objections env input ≡ [])
        × (flat_map gate_objections input.gate_states ≡ [])
        × (loop_objections input
              (required_roles_of env input)
              (current_evidence input)
              nothing_seen
              (current_reviews input)
            ≡ [])
        × (mode_objections env input ≡ [])
  unfolding objections_of
  objections_of-nil input h =
      let (a, h) = (append-nil_iff _ _).0 h in
      let (b, h) = (append-nil_iff _ _).0 h in
      let (c, h) = (append-nil_iff _ _).0 h in let (d, e) = (append-nil_iff _ _).0 h in (a, b, d, e)

  in_finalize :
      (m : AssuranceMode) (input : AssurancePolicyInput)
      → m ≡ AssuranceMode.finalize
      → objections_in_mode env m input ≡ []
      → finalize_objections env input ≡ []
  in_finalize AssuranceMode.status input e h = cc e
  in_finalize AssuranceMode.submission input e h = cc e
  in_finalize AssuranceMode.finalize input e h = h

  pending_none :
      (input : AssurancePolicyInput)
      → input.mode ≡ AssuranceMode.finalize
      → mode_objections env input ≡ []
      → pending_roles_of env input ≡ []
  unfolding mode_objections finalize_objections
  pending_none input e h =
      map-nil _ (pending_roles_of env input)
        ((append-nil_iff _ _).0 (in_finalize input.mode input e h)).0

  -- Where no role is pending, each has an approval among those that the loop remembers.
  satisfied :
      (input : AssurancePolicyInput)
      → pending_roles_of env input ≡ []
      → All
          (λ role. any (is_of_role role) (approvals_in env input) ≡ true)
          (required_roles_of env input)
  unfolding pending_roles_of satisfied_roles_of
  satisfied input h =
      let p : String → Bool = λ role. any (is_of_role role) (approvals_in env input) in
      let roles : List String = required_roles_of env input in
      All-map roles
        (λ role k.
          (All-of_contains (λ a. Unit {0} × (p a ≡ true)) (filter p roles) role
            (All-filter (λ a. Unit {0}) p roles (All-map roles (λ a m. tt) (All-Memᴰ roles)))
            (true_of_not (contains (filter p roles) role) k)).1)
        (filter-nil_all (λ role. not (contains (filter p roles) role)) roles h)

  current_reviews-All :
      (input : AssurancePolicyInput)
      → All
          (λ r.
            Memᴰ r (with_candidate input.reviews input.candidate)
            × (review_identity_matches input r ≡ true))
          (current_reviews input)
  unfolding current_reviews
  current_reviews-All input =
      let all : List ReviewRecord = with_candidate input.reviews input.candidate in
      All-filter (λ r. Memᴰ r all) (review_identity_matches input) all (All-Memᴰ all)

  -- An approval of a role that completion rests on: one of the records given, independent, of the
  -- role, and over no severe finding.
  abbrev pub IsApprovedBy : AssurancePolicyInput → String → ReviewRecord → Type 0
  IsApprovedBy input role r =
      Memᴰ r (with_candidate input.reviews input.candidate)
      × IsIndependent input (required_roles_of env input) (current_evidence input) r
      × (r.reviewer_role ≡ role)
      × (r.verdict ≡ ReviewVerdict.approved)
      × (any (λ (f : ReviewFinding). is_severe f.severity) r.findings ≡ false)

  -- When the policy allows finalization, every required role has approved the current digest of
  -- this run, in a session that is not the implementer's, over no HIGH or CRITICAL finding, and
  -- referring to current evidence only.
  pub evaluate_assurance_policy-finalize :
      (input : AssurancePolicyInput)
      → input.mode ≡ AssuranceMode.finalize
      → (evaluate_assurance_policy env input).allowed ≡ true
      → All (λ role. (r : ReviewRecord) × IsApprovedBy input role r) (required_roles_of env input)
  unfolding approvals_in
  evaluate_assurance_policy-finalize input e h =
      let roles : List String = required_roles_of env input in
      let evidence : List EvidenceRecord = current_evidence input in
      let (run, gates, loop, mode) = objections_of-nil input (allowed-nil input h) in
      let sound =
        loop_objections-nil input roles evidence nothing_seen (current_reviews input) loop in
      let P : ReviewRecord → Type 0 = λ r.
        (Memᴰ r (with_candidate input.reviews input.candidate)
          × (review_identity_matches input r ≡ true))
        × ((is_recognized_assurance_role r.reviewer_role ≡ true)
            × IsIndependent input roles evidence r
            × IsConsistent r) in
      let approvals =
        All-loop_seen P nothing_seen (current_reviews input)
          (All-both _ _ (current_reviews input) (current_reviews-All input) sound) tt in
      All-map roles
        (λ role k.
          let (r, member, named) = any-witness (is_of_role role) (approvals_in env input) k in
          let (((given, live), (known, independent, consistent)), approved) =
            All_of_Memᴰ (Approved P) approvals member in
          let verdict = (verdict_eq.beq_iff r.verdict ReviewVerdict.approved).0 approved in
          (
            r,
            (
              given,
              independent,
              (string_eq.beq_iff r.reviewer_role role).0 named,
              verdict,
              consistent verdict,
            ),
          ))
        (satisfied input (pending_none input e mode))

  -- No two approvals of the current digest share a role or a session, in any mode that the policy
  -- allows: one session cannot approve for two roles, nor one role twice.
  pub evaluate_assurance_policy-AllApart :
      (input : AssurancePolicyInput)
      → (evaluate_assurance_policy env input).allowed ≡ true
      → AllApart (current_reviews input)
  evaluate_assurance_policy-AllApart input h =
      let (run, gates, loop, mode) = objections_of-nil input (allowed-nil input h) in
      loop_objections-AllApart input (required_roles_of env input) (current_evidence input)
        (current_reviews input) loop

  no_violations :
      (vs : List ScopeViolation) → elim vs [ [] ↦ false | v ∷ ws ↦ true ] ≡ false → vs ≡ []
  no_violations [] h = refl
  no_violations (v ∷ vs) h = cc h

  gate_passes :
      (s : GateStateSnapshot)
      → gate_objections s ≡ []
      → is_review_gate s.gate_id ≡ false
      → s.status ≡ GateRuntimeStatus.pass
  unfolding gate_objections
  gate_passes s h other = ground (arith, object_if-nil _ _ _ h)

  -- What the policy allows in any mode: the run has a digest and a bound implementer, no scope
  -- violation, the gates and reviewers of its work order, a valid specialist selection, and every
  -- gate that no reviewer decides at PASS.
  pub evaluate_assurance_policy-run :
      (input : AssurancePolicyInput)
      → (evaluate_assurance_policy env input).allowed ≡ true
      → (has_text input.run.current_change_digest ≡ true)
        × (has_text input.run.implementer_session_id ≡ true)
        × (input.run.scope_violations ≡ [])
        × (same_set env input.run.required_reviewers input.work_order.assurance_reviewers ≡ true)
        × (same_set env input.run.selected_gates input.work_order.quality_gates ≡ true)
        × (typed_selection_plan_is_valid env input ≡ true)
        × All
            (λ s. is_review_gate s.gate_id ≡ false → s.status ≡ GateRuntimeStatus.pass)
            input.gate_states
  unfolding run_objections
  evaluate_assurance_policy-run input h =
      let (run, gates, loop, mode) = objections_of-nil input (allowed-nil input h) in
      let (digest, run) = check_first _ _ _ _ run in
      let (session, run) = check_first _ _ _ _ run in
      let (violations, run) = check_first _ _ _ _ run in
      let (reviewed, run) = check_first _ _ _ _ run in
      let (roles, run) = check_first _ _ _ _ run in
      let (selected, run) = check_first _ _ _ _ run in
      (
        true_of_not _ digest,
        true_of_not _ session,
        no_violations input.run.scope_violations violations,
        first_holds _ _ roles,
        first_holds _ _ selected,
        true_of_not _ (object_if-nil _ _ _ run),
        All-map input.gate_states gate_passes
            (flat_map-nil gate_objections input.gate_states gates),
      )
