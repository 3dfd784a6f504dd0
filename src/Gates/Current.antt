-- ===== src/Gates/Current.antt =====
-- The records of evidence that `deriveGateStates` of src/kernel/execution.ts takes for current, by
-- their fields.
use Prim.Native.String.{String}
use mathlib.Core.List.{Memᴰ}
use uads.Common.{
  Bool, true, inl, inr, ◌≡◌, ◌↔◌, List, [], ◌∷◌, Option, none, some, any, filter, arith, string_eq,
  Bool-cases, ◌∙◌, ◌&&◌, refl,
}
use uads.Common.Find.{any-filter}
use uads.Gates.Records.{EvidenceRecord}
use uads.Gates.States.{Validation, is_current_evidence, matches_id, matches_identity, same_text}

-- An id that is asked for is the one named; one that is not asked for may be any.
abbrev pub IsAsked : String → Option (Option String) → Type 0
IsAsked a none = Unit {0}
IsAsked a (some b) = b ≡ some a

-- The record is of the project that is asked for and, as far as these are, of the order and the run.
abbrev pub IsOfRun : Option Validation → EvidenceRecord → Type 0
IsOfRun none r = Unit {0}
IsOfRun (some v) r =
    (r.project_id ≡ v.project_id)
    × IsAsked r.work_order_id v.work_order_id
    × IsAsked r.execution_run_id v.execution_run_id

-- The record is of the gate, of the digest and of the run.
abbrev pub IsCurrent : String → Option String → Option Validation → EvidenceRecord → Type 0
IsCurrent id digest v r = (r.gate_id ≡ id) × (digest ≡ some r.change_digest) × IsOfRun v r

same_text_iff : (a : String) (b : Option String) → (same_text a b ≡ true) ↔ (b ≡ some a)
same_text_iff a none = ground arith
same_text_iff a (some b) =
    let (sound, complete) = string_eq.beq_iff a b in
    ((λ h. let e : a ≡ b = sound h in cc e), (λ h. let e : a ≡ b = cc h in complete e))

matches_id_iff : (a : String) (b : Option (Option String)) → (matches_id a b ≡ true) ↔ IsAsked a b
matches_id_iff a none = ground arith
matches_id_iff a (some b) = same_text_iff a b

matches_identity_iff :
    (v : Option Validation) (r : EvidenceRecord)
    → (matches_identity r.project_id r.work_order_id r.execution_run_id v ≡ true) ↔ IsOfRun v r
matches_identity_iff none r = ground arith
matches_identity_iff (some v) r = ground (
  arith,
  string_eq.beq_iff r.project_id v.project_id,
  matches_id_iff r.work_order_id v.work_order_id,
  matches_id_iff r.execution_run_id v.execution_run_id,
)

pub is_current_evidence_iff :
    (id : String) (digest : Option String) (v : Option Validation) (r : EvidenceRecord)
    → (is_current_evidence id digest v r ≡ true) ↔ IsCurrent id digest v r
unfolding is_current_evidence
is_current_evidence_iff id digest v r = ground (
  arith,
  string_eq.beq_iff r.gate_id id,
  same_text_iff r.change_digest digest,
  matches_identity_iff v r,
)

module _ {ℓ} {A : Type ℓ} where
  -- A test that a member passes, some member passes.
  pub any-Memᴰ : (p : A → Bool) (a : A) (xs : List A) → Memᴰ a xs → p a ≡ true → any p xs ≡ true
  unfolding any
  any-Memᴰ p a [] m h = elim m [ ]
  any-Memᴰ p a (x ∷ xs) (Memᴰ.head same) h = rw (← same) (rw h refl)
  any-Memᴰ p a (x ∷ xs) (Memᴰ.tail m) h = elim (Bool-cases (p x)) [
    | inl here ↦ rw here refl
    | inr other ↦ rw other (any-Memᴰ p a xs m h)
  ]

  -- The same of the members that a filter keeps.
  pub any-filter-Memᴰ :
      (keep p : A → Bool) (a : A) (xs : List A)
      → Memᴰ a xs
      → keep a ≡ true
      → p a ≡ true
      → any p (filter keep xs) ≡ true
  any-filter-Memᴰ keep p a xs m kept h =
      any-filter keep p xs ∙ any-Memᴰ (λ x. keep x && p x) a xs m (rw kept (rw h refl))
