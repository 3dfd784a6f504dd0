-- ===== src/Gates/Verdicts.antt =====
-- What a gate state proves about the evidence and the reviews that it was derived from.
use Prim.Native.String.{String}
use mathlib.Core.List.{Memᴰ}
use uads.Common.{
  ◌⊎◌, ◌++◌, sym, ◌∙◌, ap, All-filter, All-Memᴰ, Bool-cases, inl, inr, Bool, true, false, refl,
  arith, ◌≡◌, List, [], ◌∷◌, Option, some, map, any, filter, string_eq, if◌then◌else◌,
}
use uads.Common.Find.{filter-append, reverse_onto, find-some, All-reverse_onto}
use uads.Gates.Registry.{GateDef, gate_def, is_review_gate}
use uads.Gates.Records.{
  EvidenceRecord, EvidenceRuntimeStatus, GateRuntimeStatus, GateStateSnapshot, ReviewRecord,
  evidence_status_eq, verdict_eq,
}
use uads.Gates.Current.{IsCurrent, is_current_evidence_iff, any-filter-Memᴰ}
use uads.Gates.States.{
  Validation, is_current_evidence, review_gate_state, is_passing, is_blocked_record,
  is_failed_record, derive_gate_state, derive_gate_states, evidence_gate_state,
}
use uads.Gates.Settled.{
  settled_state-pass, evidence_gate_state-pass, evidence_gate_state-gate_id,
  evidence_gate_state-blocked_iff, evidence_gate_state-fail_iff, settled_state-found,
}

left_out :
    (id : String) (digest : Option String) (v : Option Validation) (r : EvidenceRecord)
    → ¬ IsCurrent id digest v r
    → is_current_evidence id digest v r ≡ false
left_out id digest v r other = elim (Bool-cases (is_current_evidence id digest v r)) [
  | inl current ↦ absurd (other ((is_current_evidence_iff id digest v r).0 current))
  | inr outdated ↦ outdated
]

module _ (valid_reuse : Validation → String → Option String → EvidenceRecord → Bool) where
  derive_gate_state-gate_id :
      (digest : Option String) (evidence : List EvidenceRecord) (reviews : List ReviewRecord)
      (v : Option Validation) (id : String)
      → (derive_gate_state valid_reuse digest evidence reviews v id).gate_id ≡ id
  unfolding derive_gate_state review_gate_state
  derive_gate_state-gate_id digest evidence reviews v id = ground (
    arith,
    evidence_gate_state-gate_id valid_reuse id digest v
        (filter (is_current_evidence id digest v) evidence),
  )

  -- One state per selected gate, each of its gate, in the order of the selection.
  pub derive_gate_states-ids :
      (selected : List String) (digest : Option String) (evidence : List EvidenceRecord)
      (reviews : List ReviewRecord) (v : Option Validation)
      → map
          (λ (s : GateStateSnapshot). s.gate_id)
          (derive_gate_states valid_reuse selected digest evidence reviews v)
        ≡ selected
  unfolding derive_gate_states
  derive_gate_states-ids [] digest evidence reviews v = refl
  derive_gate_states-ids (id ∷ ids) digest evidence reviews v = cc (
    derive_gate_state-gate_id digest evidence reviews v id,
    derive_gate_states-ids ids digest evidence reviews v,
  )

  derive_gate_state-evidence :
      (digest : Option String) (evidence : List EvidenceRecord) (reviews : List ReviewRecord)
      (v : Option Validation) (id : String)
      → is_review_gate id ≡ false
      → derive_gate_state valid_reuse digest evidence reviews v id
        ≡ evidence_gate_state valid_reuse id digest v
            (filter (is_current_evidence id digest v) evidence)
  unfolding derive_gate_state
  derive_gate_state-evidence digest evidence reviews v id other = rw other refl

  -- A gate that no reviewer decides passes only on a record of the evidence: one of this gate,
  -- of the current digest and of the same run, that satisfies the gate's contract and, when it is
  -- reused, comes with a valid proof of reuse. The state names that record, and no current record
  -- is BLOCKED or FAIL.
  pub derive_gate_state_pass :
      (digest : Option String) (evidence : List EvidenceRecord) (reviews : List ReviewRecord)
      (v : Option Validation) (id : String)
      → is_review_gate id ≡ false
      → (derive_gate_state valid_reuse digest evidence reviews v id).status ≡ GateRuntimeStatus.pass
      → (def : GateDef) × (r : EvidenceRecord) × (gate_def id ≡ some def)
        × Memᴰ r evidence
        × (is_current_evidence id digest v r ≡ true)
        × (is_passing valid_reuse def id digest v r ≡ true)
        × ((derive_gate_state valid_reuse digest evidence reviews v id).evidence_id
            ≡ some r.evidence_id)
        × (any is_blocked_record (filter (is_current_evidence id digest v) evidence) ≡ false)
        × (any is_failed_record (filter (is_current_evidence id digest v) evidence) ≡ false)
  derive_gate_state_pass digest evidence reviews v id other h =
      let current : List EvidenceRecord = filter (is_current_evidence id digest v) evidence in
      let same = derive_gate_state-evidence digest evidence reviews v id other in
      let h2 : (evidence_gate_state valid_reuse id digest v current).status
          ≡ GateRuntimeStatus.pass =
        ap (λ (s : GateStateSnapshot). s.status) (sym same) ∙ h in
      let (unblocked, unfailed, settled) =
        evidence_gate_state-pass valid_reuse id digest v current h2 in
      let (def, r, known, found, named) =
        settled_state-pass valid_reuse (gate_def id) id digest v current
          (ap (λ (s : GateStateSnapshot). s.status) (sym settled) ∙ h2) in
      let all_current =
        All-filter (λ x. Memᴰ x evidence) (is_current_evidence id digest v) evidence
          (All-Memᴰ evidence) in
      let ((member, live), passes) =
        find-some (λ x. Memᴰ x evidence × (is_current_evidence id digest v x ≡ true))
          (is_passing valid_reuse def id digest v) (reverse_onto [] current) r
          (All-reverse_onto (λ x. Memᴰ x evidence × (is_current_evidence id digest v x ≡ true)) []
            current tt all_current)
          found in
      (
        def,
        r,
        known,
        member,
        live,
        passes,
        ap (λ (s : GateStateSnapshot). s.evidence_id) (same ∙ settled) ∙ named,
        unblocked,
        unfailed,
      )

  -- A record of another gate, another digest or another run changes no state, wherever it stands.
  pub derive_gate_state-stale :
      (digest : Option String) (older newer : List EvidenceRecord) (stale : EvidenceRecord)
      (reviews : List ReviewRecord) (v : Option Validation) (id : String)
      → ¬ IsCurrent id digest v stale
      → derive_gate_state valid_reuse digest (older ++ (stale ∷ newer)) reviews v id
        ≡ derive_gate_state valid_reuse digest (older ++ newer) reviews v id
  unfolding derive_gate_state filter
  derive_gate_state-stale digest older newer stale reviews v id other =
      let h = left_out id digest v stale other in
      let skipped : filter (is_current_evidence id digest v) (older ++ (stale ∷ newer))
          ≡ filter (is_current_evidence id digest v) (older ++ newer) =
        ground (
          arith,
          filter-append (is_current_evidence id digest v) older (stale ∷ newer),
          filter-append (is_current_evidence id digest v) older newer,
        ) in
      ap
        (λ (xs : List EvidenceRecord).
          if is_review_gate id
          then review_gate_state id digest reviews v
          else evidence_gate_state valid_reuse id digest v xs)
        skipped

  -- Of a gate that no reviewer decides, a BLOCKED record of the gate, the digest and the run is
  -- final: whatever else is recorded before or after it, the gate is BLOCKED. A FAIL record is as
  -- final, but that a BLOCKED record may come: the gate is FAIL or BLOCKED.
  pub derive_gate_state_sticky :
      (digest : Option String) (evidence : List EvidenceRecord) (reviews : List ReviewRecord)
      (v : Option Validation) (id : String) (r : EvidenceRecord)
      → is_review_gate id ≡ false
      → Memᴰ r evidence
      → IsCurrent id digest v r
      → let status = (derive_gate_state valid_reuse digest evidence reviews v id).status in
        (r.status ≡ EvidenceRuntimeStatus.evidence_blocked → status ≡ GateRuntimeStatus.blocked)
        × (r.status ≡ EvidenceRuntimeStatus.evidence_fail
            → (status ≡ GateRuntimeStatus.fail) ⊎ (status ≡ GateRuntimeStatus.blocked))
  derive_gate_state_sticky digest evidence reviews v id r other m current =
      let kept = (is_current_evidence_iff id digest v r).1 current in
      let found = λ (p : EvidenceRecord → Bool). λ (h : p r ≡ true).
        any-filter-Memᴰ (is_current_evidence id digest v) p r evidence m kept h in
      let now = filter (is_current_evidence id digest v) evidence in
      ground (
        arith,
        derive_gate_state-evidence digest evidence reviews v id other,
        evidence_gate_state-blocked_iff valid_reuse id digest v now,
        evidence_gate_state-fail_iff valid_reuse id digest v now,
        found is_blocked_record,
        found is_failed_record,
        evidence_status_eq.beq_iff r.status EvidenceRuntimeStatus.evidence_blocked,
        evidence_status_eq.beq_iff r.status EvidenceRuntimeStatus.evidence_fail,
      )

  -- Of a gate that no reviewer decides: when no current record is BLOCKED or FAIL and some current
  -- record satisfies the gate's contract, with a valid proof of reuse if it is reused, the gate
  -- passes, wherever that record stands.
  pub derive_gate_state_complete :
      (digest : Option String) (evidence : List EvidenceRecord) (reviews : List ReviewRecord)
      (v : Option Validation) (id : String) (def : GateDef)
      → is_review_gate id ≡ false
      → gate_def id ≡ some def
      → any is_blocked_record (filter (is_current_evidence id digest v) evidence) ≡ false
      → any is_failed_record (filter (is_current_evidence id digest v) evidence) ≡ false
      → any
          (is_passing valid_reuse def id digest v)
          (filter (is_current_evidence id digest v) evidence)
        ≡ true
      → (derive_gate_state valid_reuse digest evidence reviews v id).status ≡ GateRuntimeStatus.pass
  unfolding evidence_gate_state
  derive_gate_state_complete digest evidence reviews v id def other known unblocked unfailed
        passes =
      ground (
        arith,
        derive_gate_state-evidence digest evidence reviews v id other,
        settled_state-found valid_reuse (gate_def id) def id digest v
            (filter (is_current_evidence id digest v) evidence) known passes,
      )
