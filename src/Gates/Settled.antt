-- ===== src/Gates/Settled.antt =====
-- The state of a gate that no reviewer decides, from its current records: what each status means.
use Prim.Native.String.{String}
use uads.Common.{
  ◌⊎◌, inl, inr, Option-cases, ◌↔◌, Bool, true, false, refl, arith, ◌≡◌, List, [], Option, none,
  some, any, string_eq,
}
use uads.Common.Find.{find-none_iff, any-reverse_onto, find, reverse_onto}
use uads.Gates.Registry.{GateDef, gate_def}
use uads.Gates.Records.{EvidenceRecord, GateRuntimeStatus, evidence_status_eq, verdict_eq}
use uads.Gates.States.{
  Validation, is_passing, is_blocked_record, is_failed_record, evidence_gate_state, passing_state,
  settled_state,
}

module _ (valid_reuse : Validation → String → Option String → EvidenceRecord → Bool) where
  pub passing_state-pass :
      (id : String) (o : Option EvidenceRecord)
      → (passing_state valid_reuse id o).status ≡ GateRuntimeStatus.pass
      → (r : EvidenceRecord) × (o ≡ some r)
        × ((passing_state valid_reuse id o).evidence_id ≡ some r.evidence_id)
  passing_state-pass id none h = ground arith
  passing_state-pass id (some r) h = (r, refl, refl)

  pub settled_state-pass :
      (o : Option GateDef) (id : String) (digest : Option String) (v : Option Validation)
      (current : List EvidenceRecord)
      → (settled_state valid_reuse o id digest v current).status ≡ GateRuntimeStatus.pass
      → (def : GateDef) × (r : EvidenceRecord) × (o ≡ some def)
        × (find (is_passing valid_reuse def id digest v) (reverse_onto [] current) ≡ some r)
        × ((settled_state valid_reuse o id digest v current).evidence_id ≡ some r.evidence_id)
  settled_state-pass none id digest v current h = ground arith
  settled_state-pass (some def) id digest v current h =
      let (r, found, named) =
        passing_state-pass id
          (find (is_passing valid_reuse def id digest v) (reverse_onto [] current)) h in
      (def, r, refl, found, named)

  pub evidence_gate_state-pass :
      (id : String) (digest : Option String) (v : Option Validation) (current : List EvidenceRecord)
      → (evidence_gate_state valid_reuse id digest v current).status ≡ GateRuntimeStatus.pass
      → (any is_blocked_record current ≡ false)
        × (any is_failed_record current ≡ false)
        × (evidence_gate_state valid_reuse id digest v current
            ≡ settled_state valid_reuse (gate_def id) id digest v current)
  unfolding evidence_gate_state
  evidence_gate_state-pass id digest v current h = ground arith

  pub passing_state-gate_id :
      (id : String) (o : Option EvidenceRecord) → (passing_state valid_reuse id o).gate_id ≡ id
  passing_state-gate_id id none = refl
  passing_state-gate_id id (some r) = refl

  pub settled_state-gate_id :
      (o : Option GateDef) (id : String) (digest : Option String) (v : Option Validation)
      (current : List EvidenceRecord)
      → (settled_state valid_reuse o id digest v current).gate_id ≡ id
  settled_state-gate_id none id digest v current = refl
  settled_state-gate_id (some def) id digest v current =
      passing_state-gate_id id
        (find (is_passing valid_reuse def id digest v) (reverse_onto [] current))

  pub evidence_gate_state-gate_id :
      (id : String) (digest : Option String) (v : Option Validation) (current : List EvidenceRecord)
      → (evidence_gate_state valid_reuse id digest v current).gate_id ≡ id
  unfolding evidence_gate_state
  evidence_gate_state-gate_id id digest v current =
      ground (arith, settled_state-gate_id (gate_def id) id digest v current)

  pub settled_state-open :
      (o : Option GateDef) (id : String) (digest : Option String) (v : Option Validation)
      (current : List EvidenceRecord)
      → ((settled_state valid_reuse o id digest v current).status ≡ GateRuntimeStatus.pass)
        ⊎ ((settled_state valid_reuse o id digest v current).status ≡ GateRuntimeStatus.pending)
  settled_state-open none id digest v current = inr refl
  settled_state-open (some def) id digest v current =
      elim (Option-cases
        (find (is_passing valid_reuse def id digest v) (reverse_onto [] current))) [
          | inl missing ↦ rw missing (inr refl)
          | inr (r, found) ↦ rw found (inl refl)
        ]

  pub evidence_gate_state-blocked_iff :
      (id : String) (digest : Option String) (v : Option Validation) (current : List EvidenceRecord)
      → ((evidence_gate_state valid_reuse id digest v current).status ≡ GateRuntimeStatus.blocked)
        ↔ (any is_blocked_record current ≡ true)
  unfolding evidence_gate_state
  evidence_gate_state-blocked_iff id digest v current =
      ground (arith, settled_state-open (gate_def id) id digest v current)

  pub evidence_gate_state-fail_iff :
      (id : String) (digest : Option String) (v : Option Validation) (current : List EvidenceRecord)
      → ((evidence_gate_state valid_reuse id digest v current).status ≡ GateRuntimeStatus.fail)
        ↔ ((any is_blocked_record current ≡ false) × (any is_failed_record current ≡ true))
  unfolding evidence_gate_state
  evidence_gate_state-fail_iff id digest v current =
      ground (arith, settled_state-open (gate_def id) id digest v current)

  pub settled_state-found :
      (o : Option GateDef) (def : GateDef) (id : String) (digest : Option String)
      (v : Option Validation) (current : List EvidenceRecord)
      → o ≡ some def
      → any (is_passing valid_reuse def id digest v) current ≡ true
      → (settled_state valid_reuse o id digest v current).status ≡ GateRuntimeStatus.pass
  settled_state-found o def id digest v current known h =
      rw known
        (elim (Option-cases
          (find (is_passing valid_reuse def id digest v) (reverse_onto [] current))) [
            | inl missing ↦
                let nothing =
                  (find-none_iff (is_passing valid_reuse def id digest v)
                      (reverse_onto [] current)).0
                    missing in
                let turned = any-reverse_onto (is_passing valid_reuse def id digest v) [] current in
                ground (arith, h, nothing, turned)
            | inr (r, found) ↦ rw found refl
          ])
