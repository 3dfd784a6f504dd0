-- ===== src/Cost/Accounting.antt =====
-- What the ledger of src/kernel/cost-governor.ts keeps between calls.
use Prim.Native.String.{String}
use uads.Common.{
  ◌⊎◌, inl, inr, Bool-cases, true, false, none, some, ◌==◌, string_eq, ◌≡◌, ◌≢◌, refl,
}
use uads.Cost.Types.{
  CostLedger, CostStore, LedgerPatch, Surroundings, returns, throws, schema_error,
}
use uads.Cost.Ledger.{
  apply_ledger_patch, load_ledger, patch_ledger, persist_cost_ledger, read_cost_ledger,
  sanitize_ledger,
}

other_text : (a b : String) → a ≢ b → (a == b) ≡ false
other_text a b h = elim (Bool-cases (a == b)) [
  | inl same ↦ absurd (h ((string_eq.beq_iff a b).0 same))
  | inr other ↦ other
]

same_project : (s : String) → (s == s) ≡ true
same_project s = (string_eq.beq_iff s s).1 refl

-- What a patch of the ledger returns is the patched ledger with its texts redacted, and the next
-- read of the same project gives just that, if redaction keeps the project's id; if it does not, the
-- next read gives nothing. The decisions are untouched. A refused patch leaves the store as it was.
pub apply_ledger_patch-read_cost_ledger :
    (env : Surroundings) (store : CostStore) (project_id : String) (p : LedgerPatch)
    → ((store' : CostStore) × (l : CostLedger) × (l
          ≡ sanitize_ledger env.redact
              (patch_ledger env project_id (load_ledger env store project_id) p))
        × (env.accepts_ledger l ≡ true)
        × (apply_ledger_patch env store project_id p ≡ returns store' l)
        × (env.redact project_id ≡ project_id → read_cost_ledger env store' project_id ≡ some l)
        × (env.redact project_id ≢ project_id → read_cost_ledger env store' project_id ≡ none)
        × (store'.decisions ≡ store.decisions))
      ⊎ (apply_ledger_patch env store project_id p ≡ throws store schema_error)
unfolding apply_ledger_patch persist_cost_ledger read_cost_ledger patch_ledger sanitize_ledger
apply_ledger_patch-read_cost_ledger env store project_id p =
    let kept =
      sanitize_ledger env.redact
        (patch_ledger env project_id (load_ledger env store project_id) p) in
    elim (Bool-cases (env.accepts_ledger kept)) [
      | inl accepted ↦ rw accepted (
          inl (
            _,
            kept,
            refl,
            accepted,
            refl,
            (λ same. rw ((string_eq.beq_iff (env.redact project_id) project_id).1 same) refl),
            (λ other. rw (other_text (env.redact project_id) project_id other) refl),
            refl,
          ))
      | inr refused ↦ rw refused (inr refl)
    ]
