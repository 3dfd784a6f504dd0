-- ===== src/Common/Equality.antt =====
-- `===` as an interface: one Boolean test for every type with an instance, and membership by it.
use Prim.Native.Nat.{ℕ}
use Prim.Native.String.{String}
use mathlib.Core.Path.{◌≡◌, refl, ap}
use mathlib.Core.Logic.{◌↔◌}
use mathlib.Core.Bool.{Bool, true, false, ◌||◌}
use mathlib.Core.List.{List, [], ◌∷◌, ◌++◌}
use text.Mathlib.Text.{◌==◌ as str_eq}
use text.Mathlib.TextEquality.{eq_iff}
use uads.Common.Tests.{eqb, eqb_iff, if◌then◌else◌}
use native.Mathlib.Omega.{arith}

pub record Eq {ℓ} (A : Type ℓ) : Type ℓ where
  pub beq : A → A → Bool
  pub beq_iff : (a b : A) → (beq a b ≡ true) ↔ (a ≡ b)

instance abbrev pub string_eq : Eq String
string_eq = record { beq_iff = eq_iff; beq = str_eq }

instance abbrev pub nat_eq : Eq ℕ
nat_eq = record { beq = eqb; beq_iff = eqb_iff }

infix 50 ◌==◌
abbrev pub ◌==◌ {ℓ} : {A : Type ℓ} ⦃test : Eq A⦄ → A → A → Bool
◌==◌ ⦃test⦄ = test.beq

-- `xs.includes(a)` of an array, and `new Set(xs).has(a)`.
module _ {ℓ} {A : Type ℓ} ⦃e : Eq A⦄ where
  unfoldable pub contains : List A → A → Bool
  contains [] a = false
  contains (x ∷ xs) a = x == a || contains xs a

  -- `[...new Set(xs)]`: the first of equal elements stays, in order; `seen` are those kept so far.
  unfoldable pub dedupe_from : List A → List A → List A
  dedupe_from seen [] = []
  dedupe_from seen (x ∷ xs) =
      let fresh = x ∷ dedupe_from (x ∷ seen) xs in
      let skip = dedupe_from seen xs in if contains seen x then skip else fresh

  abbrev pub dedupe : List A → List A
  dedupe = dedupe_from []

module _ {ℓ} {A : Type ℓ} ⦃e : Eq A⦄ where
  pub contains-append :
      (xs ys : List A) (a : A) → contains (xs ++ ys) a ≡ (contains xs a || contains ys a)
  unfolding contains
  contains-append [] ys a = refl
  contains-append (x ∷ xs) ys a = ground (arith, contains-append xs ys a)

  -- Only membership in `seen` counts.
  pub dedupe_from_cong :
      (seen known xs : List A)
      → ((a : A) → contains seen a ≡ contains known a)
      → dedupe_from seen xs ≡ dedupe_from known xs
  unfolding dedupe_from contains
  dedupe_from_cong seen known [] h = refl
  dedupe_from_cong seen known (x ∷ xs) h = ground (
    arith,
    h x,
    dedupe_from_cong seen known xs h,
    dedupe_from_cong (x ∷ seen) (x ∷ known) xs (λ a. ap (λ b. x == a || b) (h a)),
  )

  pub contains-dedupe_from :
      (seen xs : List A) (a : A)
      → (contains seen a || contains (dedupe_from seen xs) a) ≡ (contains seen a || contains xs a)
  unfolding dedupe_from contains
  contains-dedupe_from seen [] a = refl
  contains-dedupe_from seen (x ∷ xs) a =
      ground
        (arith, contains-dedupe_from seen xs a, contains-dedupe_from (x ∷ seen) xs a, e.beq_iff x a)
