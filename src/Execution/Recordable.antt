-- ===== src/Execution/Recordable.antt =====
-- What is known where the checks of src/kernel/execution.ts on a record of evidence let it through:
-- assertRecordableGate and assertPassContract.
use Prim.Native.String.{String}
use uads.Common.{
  true_of_not, Bool, true, false, not, ◌&&◌, ◌||◌, Option, none, some, contains, ◌==◌, string_eq,
  ◌≡◌, refl,
}
use uads.Common.Nullable.{has_text}
use uads.Kernel.Execution.{ExecutionRun}
use uads.Gates.Registry.{EvidenceKind, GateDef, gate_def, kind_eq}
use uads.Gates.Records.{evidence_status_eq}
use uads.Gates.Evidence.{is_command_contract, is_exit_zero}
use uads.Execution.Store.{ExecutionError, Store, raise_if, returned, when}
use uads.Execution.Contract.{Proof, assert_pass_contract, assert_recordable_gate, or_unknown}
use uads.Execution.Returns.{passed_guard, returned_by}

-- The conditions of `assertPassContract`.
abbrev pub MeetsContract : GateDef → Proof → Type 0
MeetsContract def p =
    (contains def.allowed_evidence_kinds p.kind ≡ true)
    × (((is_command_contract def.contract_kind || (p.kind == EvidenceKind.command))
          && (not (p.kind == EvidenceKind.command)
              || (not (has_text p.command)
                  || (not (is_exit_zero p.exit_code)
                      || (not (has_text p.output_ref) || not (has_text p.output_digest))))))
        ≡ false)
    × (((p.kind == EvidenceKind.file)
          && (not (has_text p.file_ref) || not (has_text p.file_digest)))
        ≡ false)
    × (((p.kind == EvidenceKind.invariant)
          && not (
              (has_text p.output_ref && has_text p.output_digest)
              || (has_text p.file_ref && has_text p.file_digest)))
        ≡ false)

last_guard :
    (c : Bool) (e : ExecutionError) (s : Store) (a : Unit {0})
    → (raise_if c e s).0 ≡ returned a
    → c ≡ false
last_guard true e s a h = cc h
last_guard false e s a h = refl

assert_pass_contract-MeetsContract :
    (def : GateDef) (p : Proof) (s : Store) (a : Unit {0})
    → (assert_pass_contract def p s).0 ≡ returned a
    → MeetsContract def p
unfolding assert_pass_contract
assert_pass_contract-MeetsContract def p s a h =
    let (kind, h) = passed_guard _ _ _ s a h in
    let (command, h) = passed_guard _ _ _ s a h in
    let (file, h) = passed_guard _ _ _ s a h in
    (true_of_not _ kind, command, file, last_guard _ _ s a h)

pub when_passed :
    (c : Bool) (def : GateDef) (p : Proof) (s : Store) (a : Unit {0})
    → c ≡ true
    → (when c (assert_pass_contract def p) s).0 ≡ returned a
    → MeetsContract def p
when_passed true def p s a c h = assert_pass_contract-MeetsContract def p s a h
when_passed false def p s a c h = cc c

known_gate :
    (o : Option GateDef) (id : String) (s : Store) (def : GateDef)
    → (or_unknown o id s).0 ≡ returned def
    → o ≡ some def
known_gate none id s def h = cc h
known_gate (some g) id s def h = cc h

pub assert_recordable_gate-known :
    (run : ExecutionRun) (id : String) (s : Store) (def : GateDef)
    → (assert_recordable_gate run id s).0 ≡ returned def
    → (contains run.selected_gates id ≡ true) × (gate_def id ≡ some def)
unfolding assert_recordable_gate
assert_recordable_gate-known run id s def h =
    let (known, h) = passed_guard _ _ _ s def h in
    let (selected, h) = passed_guard _ _ _ s def h in
    let (g, found, h) = returned_by (or_unknown (gate_def id) id) _ s def h in
    let (generic, h) = passed_guard _ _ _ _ def h in
    let same : g ≡ def = cc h in
    (true_of_not _ selected, rw (← same) (known_gate (gate_def id) id s g found))
