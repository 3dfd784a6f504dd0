-- ===== src/Gates/Evidence.antt =====
-- `evidenceSatisfiesGate` of src/kernel/execution.ts: whether a record is proof enough for a gate.
use Prim.Native.String.{String}
use uads.Common.{
  ℕ, ap, Bool, true, false, ◌&&◌, ◌||◌, not, Option, none, some, contains, ◌==◌, string_eq,
  if◌then◌else◌, arith, eqb, ◌≡◌, ◌↔◌,
}
use uads.Common.Int.{ℤ, pos, negsuc}
use uads.Gates.Registry.{EvidenceKind, GateContractKind, GateDef, kind_eq, kind_eq_iff}
use uads.Gates.Records.{EvidenceRecord, EvidenceRuntimeStatus, EvidenceSource, evidence_status_eq}

-- `Boolean(text)` of a text that may be missing or null.
abbrev pub is_truthy : Option String → Bool
is_truthy none = false
is_truthy (some s) = not (s == "")

abbrev pub is_exit_zero : Option ℤ → Bool
is_exit_zero none = false
is_exit_zero (some (pos n)) = eqb n 0
is_exit_zero (some (negsuc n)) = false

abbrev pub is_cache_reuse : Option EvidenceSource → Bool
is_cache_reuse none = false
is_cache_reuse (some EvidenceSource.executed) = false
is_cache_reuse (some EvidenceSource.cache_reuse) = true

abbrev pub is_command_contract : GateContractKind → Bool
is_command_contract GateContractKind.command = true
is_command_contract GateContractKind.artifact = false
is_command_contract GateContractKind.invariant = false
is_command_contract GateContractKind.review = false

-- The five links that a reused record keeps to the record it was copied from.
unfoldable pub has_reuse_links : EvidenceRecord → Bool
has_reuse_links r =
    is_truthy r.source_cache_record_id
    && (is_truthy r.source_evidence_id
        && (is_truthy r.cache_decision_id
            && (is_truthy r.reuse_proof_digest && is_truthy r.gate_reuse_contract_identity)))

unfoldable pub is_command_proof : EvidenceRecord → Bool
is_command_proof r =
    (r.kind == EvidenceKind.command)
    && (is_truthy r.command
        && (is_exit_zero r.exit_code && (is_truthy r.output_ref && is_truthy r.output_digest)))

unfoldable pub is_file_proof : EvidenceRecord → Bool
is_file_proof r = is_truthy r.file_ref && is_truthy r.file_digest

unfoldable pub is_invariant_proof : EvidenceRecord → Bool
is_invariant_proof r =
    (is_truthy r.output_ref && is_truthy r.output_digest)
    || (is_truthy r.file_ref && is_truthy r.file_digest)

unfoldable pub evidence_satisfies_gate : EvidenceRecord → GateDef → Bool
evidence_satisfies_gate r def =
    if not (r.status == EvidenceRuntimeStatus.evidence_pass)
    then false
    else if not (contains def.allowed_evidence_kinds r.kind)
    then false
    else if is_cache_reuse r.source && not (has_reuse_links r)
    then false
    else if is_command_contract def.contract_kind || (r.kind == EvidenceKind.command)
    then is_command_proof r
    else if r.kind == EvidenceKind.file
    then is_file_proof r
    else if r.kind == EvidenceKind.invariant
    then is_invariant_proof r
    else false

-- The proof that a kind demands, of the three that a record may hold.
abbrev pub proof_of_kind : Bool → Bool → Bool → EvidenceKind → Bool
proof_of_kind c f i EvidenceKind.command = c
proof_of_kind c f i EvidenceKind.file = f
proof_of_kind c f i EvidenceKind.invariant = i
proof_of_kind c f i EvidenceKind.review = false

abbrev pub has_proof : EvidenceRecord → Bool
has_proof r = proof_of_kind (is_command_proof r) (is_file_proof r) (is_invariant_proof r) r.kind

satisfies_cases :
    (status : EvidenceRuntimeStatus) (kind : EvidenceKind) (contract : GateContractKind)
    (allowed reused links c f i : Bool)
    → ((if not (status == EvidenceRuntimeStatus.evidence_pass)
          then false
          else if not allowed
          then false
          else if reused && not links
          then false
          else if is_command_contract contract || (kind == EvidenceKind.command)
          then c
          else if kind == EvidenceKind.file
          then f
          else if kind == EvidenceKind.invariant
          then i
          else false)
        ≡ true)
      ↔ ((status ≡ EvidenceRuntimeStatus.evidence_pass)
          × (allowed ≡ true)
          × (reused ≡ true → links ≡ true)
          × ((if is_command_contract contract || (kind == EvidenceKind.command)
                then c
                else proof_of_kind c f i kind)
              ≡ true))
satisfies_cases EvidenceRuntimeStatus.evidence_pass EvidenceKind.command k a u l c f i =
    ground arith
satisfies_cases EvidenceRuntimeStatus.evidence_pass EvidenceKind.file k a u l c f i = ground arith
satisfies_cases EvidenceRuntimeStatus.evidence_pass EvidenceKind.invariant k a u l c f i =
    ground arith
satisfies_cases EvidenceRuntimeStatus.evidence_pass EvidenceKind.review k a u l c f i = ground arith
satisfies_cases EvidenceRuntimeStatus.evidence_fail kind k a u l c f i = ground arith
satisfies_cases EvidenceRuntimeStatus.evidence_blocked kind k a u l c f i = ground arith

-- A record satisfies a gate exactly when its status is PASS, the gate allows its kind, a reused
-- record keeps all five links, and it holds the proof asked for: of a command when the gate is a
-- command gate or the record a command's, else the proof of the record's own kind.
pub evidence_satisfies_gate_iff :
    (r : EvidenceRecord) (def : GateDef)
    → (evidence_satisfies_gate r def ≡ true) ↔ (
        (r.status ≡ EvidenceRuntimeStatus.evidence_pass)
        × (contains def.allowed_evidence_kinds r.kind ≡ true)
        × (is_cache_reuse r.source ≡ true → has_reuse_links r ≡ true)
        × ((if is_command_contract def.contract_kind || (r.kind == EvidenceKind.command)
              then is_command_proof r
              else has_proof r)
            ≡ true))
unfolding evidence_satisfies_gate
evidence_satisfies_gate_iff r def =
    satisfies_cases r.status r.kind def.contract_kind (contains def.allowed_evidence_kinds r.kind)
      (is_cache_reuse r.source) (has_reuse_links r) (is_command_proof r) (is_file_proof r)
      (is_invariant_proof r)

is_exit_zero-some : (o : Option ℤ) → is_exit_zero o ≡ true → o ≡ some (pos 0)
is_exit_zero-some none h = cc h
is_exit_zero-some (some (pos n)) h =
    let zero_code : n ≡ 0 = ground (arith, h) in ap (λ (k : ℕ). some (pos k)) zero_code
is_exit_zero-some (some (negsuc n)) h = cc h

command_branch :
    (k : GateContractKind) (own c other : Bool)
    → k ≡ GateContractKind.command
    → (if is_command_contract k || own then c else other) ≡ true
    → c ≡ true
command_branch k own c other e h = ground arith

all_five :
    (a b c d e : Bool)
    → (a && (b && (c && (d && e)))) ≡ true
    → (a ≡ true) × (b ≡ true) × (c ≡ true) × (e ≡ true)
all_five a b c d e h = ground arith

-- A record that satisfies a command gate is of a command that was run and left exit code 0.
pub evidence_satisfies_gate-command :
    (r : EvidenceRecord) (def : GateDef)
    → def.contract_kind ≡ GateContractKind.command
    → evidence_satisfies_gate r def ≡ true
    → (r.kind ≡ EvidenceKind.command)
      × (r.exit_code ≡ some (pos 0))
      × (is_truthy r.command ≡ true)
      × (is_truthy r.output_digest ≡ true)
unfolding is_command_proof
evidence_satisfies_gate-command r def k h =
    let (_, _, _, shown) = (evidence_satisfies_gate_iff r def).0 h in
    let proof : is_command_proof r ≡ true =
      command_branch def.contract_kind (r.kind == EvidenceKind.command) (is_command_proof r)
        (has_proof r) k shown in
    let (same, ran, left_zero, digest) =
      all_five (r.kind == EvidenceKind.command) (is_truthy r.command) (is_exit_zero r.exit_code)
        (is_truthy r.output_ref) (is_truthy r.output_digest) proof in
    (
      (kind_eq_iff r.kind EvidenceKind.command).0 same,
      is_exit_zero-some r.exit_code left_zero,
      ran,
      digest,
    )
