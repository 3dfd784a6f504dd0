-- ===== src/Common/Lists.antt =====
-- Lists measured by native numbers, with Boolean predicates: the array methods of the source.
use Prim.Native.Nat.{ℕ, zero, suc, ◌+◌}
use mathlib.Core.Path.{◌≡◌, refl}
use mathlib.Core.Logic.{inl, inr, ◌↔◌}
use mathlib.Core.Bool.{Bool, true, false, ◌||◌, ◌&&◌}
use mathlib.Core.Option.{Option, none, some}
use mathlib.Core.List.{List, [], ◌∷◌, ◌++◌, Memᴰ}
use native.Mathlib.Omega.{arith}
use uads.Common.Tests.{if◌then◌else◌, Bool-cases}

abbrev pub All {ℓ κ} : {A : Type ℓ} → (A → Type κ) → List A → Type κ
All P [] = Unit
All P (x ∷ xs) = P x × All P xs

module _ {ℓ} {A : Type ℓ} where
  abbrev pub length : List A → ℕ
  length [] = 0
  length (x ∷ xs) = suc (length xs)

  abbrev pub get_elem? : List A → ℕ → Option A
  get_elem? [] i = none
  get_elem? (x ∷ xs) zero = some x
  get_elem? (x ∷ xs) (suc i) = get_elem? xs i

  unfoldable pub any : (A → Bool) → List A → Bool
  any p [] = false
  any p (x ∷ xs) = p x || any p xs

  unfoldable pub every : (A → Bool) → List A → Bool
  every p [] = true
  every p (x ∷ xs) = p x && every p xs

  unfoldable pub filter : (A → Bool) → List A → List A
  filter p [] = []
  filter p (x ∷ xs) = let rest = filter p xs in if p x then x ∷ rest else rest

  -- `xs[0] ?? null`
  abbrev pub head? : List A → Option A
  head? [] = none
  head? (x ∷ xs) = some x

  -- `xs.slice(1)`
  abbrev pub rest_of : List A → List A
  rest_of [] = []
  rest_of (x ∷ xs) = xs

module _ {ℓ} {A : Type ℓ} where
  pub length-append : (xs ys : List A) → length (xs ++ ys) ≡ length xs + length ys
  length-append [] ys = omega arith
  length-append (x ∷ xs) ys = omega (arith, length-append xs ys)

module _ {ℓ κ} {A : Type ℓ} (P : A → Type κ) where
  -- What a filter keeps passes its test, and has what all elements have.
  pub All-filter :
      (p : A → Bool) (xs : List A) → All P xs → All (λ a. P a × (p a ≡ true)) (filter p xs)
  unfolding filter
  All-filter p [] h = tt
  All-filter p (x ∷ xs) h = elim (Bool-cases (p x)) [
    | inl keep ↦ rw keep ((h.0, keep), All-filter p xs h.1)
    | inr drop ↦ rw drop (All-filter p xs h.1)
  ]

  pub All_of_Memᴰ : {a : A} {xs : List A} → All P xs → Memᴰ a xs → P a
  All_of_Memᴰ {xs = []} h m = elim m [ ]
  All_of_Memᴰ {xs = x ∷ xs} h (Memᴰ.head e) = rw e h.0
  All_of_Memᴰ {xs = x ∷ xs} h (Memᴰ.tail m) = All_of_Memᴰ h.1 m

module _ {ℓ} {A : Type ℓ} where
  pub All-map {κ} : {P Q : A → Type κ} (xs : List A) → ((a : A) → P a → Q a) → All P xs → All Q xs
  All-map [] f h = tt
  All-map (x ∷ xs) f h = (f x h.0, All-map xs f h.1)

  -- Each element of a list is a member of it.
  pub All-Memᴰ : (xs : List A) → All (λ a. Memᴰ a xs) xs
  All-Memᴰ [] = tt
  All-Memᴰ (x ∷ xs) = (Memᴰ.head refl, All-map xs (λ a m. Memᴰ.tail m) (All-Memᴰ xs))

  pub All-both {κ μ} :
      (P : A → Type κ) (Q : A → Type μ) (xs : List A)
      → All P xs
      → All Q xs
      → All (λ a. P a × Q a) xs
  All-both P Q [] h k = tt
  All-both P Q (x ∷ xs) h k = ((h.0, k.0), All-both P Q xs h.1 k.1)

  -- What holds of all that a filter keeps holds of every element that passes its test.
  pub All-of_filter {κ} :
      (P : A → Type κ) (p : A → Bool) (xs : List A)
      → All P (filter p xs)
      → All (λ a. p a ≡ true → P a) xs
  unfolding filter
  All-of_filter P p [] h = tt
  All-of_filter P p (x ∷ xs) h = elim (Bool-cases (p x)) [
    | inl keep ↦
        let k : All P (x ∷ filter p xs) = rw keep at h in (λ e. k.0, All-of_filter P p xs k.1)
    | inr drop ↦
        let k : All P (filter p xs) = rw drop at h in (λ e. cc (e, drop), All-of_filter P p xs k)
  ]

module _ {ℓ} {A : Type ℓ} where
  -- `xs.flatMap(f)`
  unfoldable pub flat_map {κ} : {B : Type κ} → (A → List B) → List A → List B
  flat_map f [] = []
  flat_map f (x ∷ xs) = f x ++ flat_map f xs

  pub every-All : (p : A → Bool) (xs : List A) → every p xs ≡ true → All (λ a. p a ≡ true) xs
  unfolding every
  every-All p [] h = tt
  every-All p (x ∷ xs) h = elim (Bool-cases (p x)) [
    | inl yes_here ↦ (yes_here, every-All p xs (rw yes_here at h))
    | inr not_here ↦ let no : false ≡ true = rw not_here at h in cc no
  ]

  pub any-witness :
      (p : A → Bool) (xs : List A) → any p xs ≡ true → (a : A) × Memᴰ a xs × (p a ≡ true)
  unfolding any
  any-witness p [] h = cc h
  any-witness p (x ∷ xs) h = elim (Bool-cases (p x)) [
    | inl here ↦ (x, Memᴰ.head refl, here)
    | inr other ↦ let (a, m, q) = any-witness p xs (rw other at h) in (a, Memᴰ.tail m, q)
  ]

  pub append-nil_iff : (xs ys : List A) → (xs ++ ys ≡ []) ↔ ((xs ≡ []) × (ys ≡ []))
  append-nil_iff [] ys = ground arith
  append-nil_iff (x ∷ xs) ys = ground arith

module _ {ℓ} {A : Type ℓ} where
  pub flat_map-nil {κ} :
      {B : Type κ} (f : A → List B) (xs : List A) → flat_map f xs ≡ [] → All (λ a. f a ≡ []) xs
  unfolding flat_map
  flat_map-nil f [] h = tt
  flat_map-nil f (x ∷ xs) h =
      let (here, rest) = (append-nil_iff (f x) (flat_map f xs)).0 h in
      (here, flat_map-nil f xs rest)

module _ {ℓ κ} {A : Type ℓ} (P : A → Type κ) where
  pub All-append : (xs ys : List A) → All P xs → All P ys → All P (xs ++ ys)
  All-append [] ys h k = k
  All-append (x ∷ xs) ys h k = (h.0, All-append xs ys h.1 k)
