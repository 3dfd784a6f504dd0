-- ===== src/Execution/Proven.antt =====
-- What a PASS that `runEvidenceRecord` of src/kernel/execution.ts records is proof of.
use Prim.Native.String.{String}
use uads.Common.{
  Bool, true, false, not, ◌&&◌, ◌||◌, Option, none, some, contains, ◌==◌, string_eq, if◌then◌else◌,
  arith, Bool-cases, inl, inr, ◌≡◌, ◌∙◌, ap, sym, refl,
}
use uads.Common.Int.{ℤ}
use uads.Common.Nullable.{has_text}
use uads.Kernel.Execution.{ExecutionRun}
use uads.Gates.Registry.{EvidenceKind, GateDef, gate_def, kind_eq}
use uads.Gates.Records.{EvidenceRecord, EvidenceRuntimeStatus, evidence_status_eq}
use uads.Gates.Evidence.{
  evidence_satisfies_gate, is_command_contract, is_command_proof, is_exit_zero, is_file_proof,
  is_invariant_proof, is_truthy,
}
use uads.Execution.Store.{Store, World, returned}
use uads.Execution.Run.{Active, load_active}
use uads.Execution.Record.{
  Recorded, evidence_record_of, kept_command, proof_for, prepare_evidence, prove_evidence,
  file_evidence, run_evidence_record,
}
use uads.Execution.Contract.{EvidenceInput, assert_recordable_gate, recorded_status}
use uads.Execution.Returns.{passed_guard, returned_by, returned_inj}
use uads.Execution.Recordable.{MeetsContract, when_passed, assert_recordable_gate-known}

-- The contract's conditions and the gate's are the same but for the form they are written in.
proof_for_kind :
    (k : EvidenceKind) (c a o d f g : Bool) (e : Option ℤ)
    → ((c || (k == EvidenceKind.command))
        && (not (k == EvidenceKind.command)
            || (not a || (not (is_exit_zero e) || (not o || not d)))))
      ≡ false
    → ((k == EvidenceKind.file) && (not f || not g)) ≡ false
    → ((k == EvidenceKind.invariant) && not ((o && d) || (f && g))) ≡ false
    → (k == EvidenceKind.review) ≡ false
    → (if c || (k == EvidenceKind.command)
        then (k == EvidenceKind.command)
          && (a && (is_exit_zero (if k == EvidenceKind.command then e else none) && (o && d)))
        else if k == EvidenceKind.file
        then f && g
        else if k == EvidenceKind.invariant
        then (o && d) || (f && g)
        else false)
      ≡ true
proof_for_kind EvidenceKind.command c a o d f g e h i j r = ground arith
proof_for_kind EvidenceKind.file c a o d f g e h i j r = ground arith
proof_for_kind EvidenceKind.invariant c a o d f g e h i j r = ground arith
proof_for_kind EvidenceKind.review c a o d f g e h i j r = cc r

-- Redaction leaves no text empty that was not.
abbrev pub KeepsText : (String → String) → Type 0
KeepsText redact = (text : String) → (text == "") ≡ false → (redact text == "") ≡ false

module _ (world : World) where
  command_kept :
      (command : Option String)
      → KeepsText world.redact
      → is_truthy (kept_command world command) ≡ has_text command
  command_kept none keeps = refl
  command_kept (some c) keeps = elim (Bool-cases (c == "")) [
    | inl blank ↦ rw blank refl
    | inr filled ↦ rw (filled, keeps c filled) refl
  ]

  record_satisfies :
      (run : ExecutionRun) (input : EvidenceInput) (copied file : Option String × Option String)
      (def : GateDef)
      → KeepsText world.redact
      → MeetsContract def (proof_for world input copied file)
      → recorded_status input ≡ EvidenceRuntimeStatus.evidence_pass
      → (input.kind == EvidenceKind.review) ≡ false
      → evidence_satisfies_gate (evidence_record_of world run input copied file) def ≡ true
  unfolding evidence_satisfies_gate evidence_record_of is_command_proof is_file_proof
      is_invariant_proof
  record_satisfies run input copied file def keeps (kind, command, filed, invariant) status other =
      rw (status, kind, command_kept input.command keeps)
        (proof_for_kind input.kind (is_command_contract def.contract_kind) (has_text input.command)
          (has_text copied.0) (has_text copied.1) (has_text file.0) (has_text file.1)
          input.exit_code command filed invariant other)

  prove_evidence-satisfies :
      (run : ExecutionRun) (input : EvidenceInput) (s : Store) (r : EvidenceRecord)
      → KeepsText world.redact
      → (input.kind == EvidenceKind.review) ≡ false
      → (prove_evidence world run input s).0 ≡ returned r
      → r.status ≡ EvidenceRuntimeStatus.evidence_pass
      → (def : GateDef) × (gate_def (world.redact input.gate_id) ≡ some def)
        × (contains run.selected_gates (world.redact input.gate_id) ≡ true)
        × (evidence_satisfies_gate r def ≡ true)
  unfolding prove_evidence evidence_record_of
  prove_evidence-satisfies run input s r keeps other h claimed =
      let (def, recordable, h) =
        returned_by (assert_recordable_gate run (world.redact input.gate_id)) _ s r h in
      let (exit_code, h) = passed_guard _ _ _ _ r h in
      let (compatible, h) = passed_guard _ _ _ _ r h in
      let (copied, a, h) = returned_by _ _ _ r h in
      let (file, b, h) = returned_by _ _ _ r h in
      let (c, met, h) = returned_by _ _ _ r h in
      let made : evidence_record_of world run input copied file ≡ r = cc h in
      let (selected, known) =
        assert_recordable_gate-known run (world.redact input.gate_id) s def recordable in
      let status : recorded_status input ≡ EvidenceRuntimeStatus.evidence_pass =
        ap (λ (e : EvidenceRecord). e.status) made ∙ claimed in
      let passed : (recorded_status input == EvidenceRuntimeStatus.evidence_pass) ≡ true =
        (evidence_status_eq.beq_iff (recorded_status input) EvidenceRuntimeStatus.evidence_pass).1
          status in
      let contract =
        when_passed (recorded_status input == EvidenceRuntimeStatus.evidence_pass) def
          (proof_for world input copied file) _ c passed met in
      let satisfied = record_satisfies run input copied file def keeps contract status other in
      (def, known, selected, ap (λ e. evidence_satisfies_gate e def) (sym made) ∙ satisfied)

  prepare_evidence-satisfies :
      (run : ExecutionRun) (input : EvidenceInput) (s : Store) (r : EvidenceRecord)
      → KeepsText world.redact
      → (input.kind == EvidenceKind.review) ≡ false
      → (prepare_evidence world run input s).0 ≡ returned r
      → r.status ≡ EvidenceRuntimeStatus.evidence_pass
      → (def : GateDef) × (gate_def (world.redact input.gate_id) ≡ some def)
        × (contains run.selected_gates (world.redact input.gate_id) ≡ true)
        × (evidence_satisfies_gate r def ≡ true)
  unfolding prepare_evidence
  prepare_evidence-satisfies run input s r keeps other h status =
      let (digest, h) = passed_guard _ _ _ s r h in
      let (phase, h) = passed_guard _ _ _ s r h in
      prove_evidence-satisfies run input s r keeps other h status

  file_evidence-kept :
      (active : Active) (input : EvidenceInput) (r : EvidenceRecord) (s : Store)
      (recorded : Recorded)
      → (file_evidence world active input r s).0 ≡ returned recorded
      → r ≡ recorded.record_kept
  unfolding file_evidence
  file_evidence-kept active input r s recorded h =
      let (a, filed, h) = returned_by _ _ s recorded h in
      let (b, counted, h) = returned_by _ _ _ recorded h in
      let (evidence, c, h) = returned_by _ _ _ recorded h in
      let (reviews, d, h) = returned_by _ _ _ recorded h in
      let (e, stored, h) = returned_by _ _ _ recorded h in
      let (f, noted, h) = returned_by _ _ _ recorded h in
      ap (λ (x : Recorded). x.record_kept) (returned_inj _ recorded h)

-- A PASS that `evidence record` returns is of a registered gate that the run selected, and proof
-- enough for that gate, if redaction leaves no text empty and the record is not of kind review.
pub run_evidence_record-satisfies :
    (world : World) (input : EvidenceInput) (s : Store) (recorded : Recorded)
    → KeepsText world.redact
    → (input.kind == EvidenceKind.review) ≡ false
    → (run_evidence_record world input s).0 ≡ returned recorded
    → recorded.record_kept.status ≡ EvidenceRuntimeStatus.evidence_pass
    → (active : Active) × (def : GateDef) × ((load_active world s).0 ≡ returned active)
      × (gate_def (world.redact input.gate_id) ≡ some def)
      × (contains active.run.selected_gates (world.redact input.gate_id) ≡ true)
      × (evidence_satisfies_gate recorded.record_kept def ≡ true)
unfolding run_evidence_record
run_evidence_record-satisfies world input s recorded keeps other h status =
    let (active, loaded, h) = returned_by (load_active world) _ s recorded h in
    let (r, prepared, h) = returned_by (prepare_evidence world active.run input) _ _ recorded h in
    let kept = file_evidence-kept world active input r _ recorded h in
    let (def, known, selected, satisfied) =
      prepare_evidence-satisfies world active.run input _ r keeps other prepared
        (ap (λ (e : EvidenceRecord). e.status) kept ∙ status) in
    (
      active,
      def,
      loaded,
      known,
      selected,
      ap (λ e. evidence_satisfies_gate e def) (sym kept) ∙ satisfied,
    )
