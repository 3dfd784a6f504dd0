-- ===== src/Common/Find.antt =====
-- `find` and `reverse` of an array, with what is found and what a search depends on.
use uads.Common.{
  Eq, contains, ◌==◌, Bool, true, false, ◌&&◌, ◌||◌, inl, inr, refl, arith, All, Bool-cases, ◌≡◌,
  ◌↔◌, List, [], ◌∷◌, ◌++◌, Option, none, some, any, filter, if◌then◌else◌,
}

-- `xs.find(p)`
unfoldable pub find {ℓ} : {A : Type ℓ} → (A → Bool) → List A → Option A
find p [] = none
find p (x ∷ xs) = if p x then some x else find p xs

-- `[...xs].reverse()`, onto what is reversed already
unfoldable pub reverse_onto {ℓ} : {A : Type ℓ} → List A → List A → List A
reverse_onto acc [] = acc
reverse_onto acc (x ∷ xs) = reverse_onto (x ∷ acc) xs

module _ {ℓ} {A : Type ℓ} where
  pub any-reverse_onto :
      (p : A → Bool) (acc xs : List A) → any p (reverse_onto acc xs) ≡ (any p xs || any p acc)
  unfolding any reverse_onto
  any-reverse_onto p acc [] = refl
  any-reverse_onto p acc (x ∷ xs) = ground (arith, any-reverse_onto p (x ∷ acc) xs)

  pub any-append : (p : A → Bool) (xs ys : List A) → any p (xs ++ ys) ≡ (any p xs || any p ys)
  unfolding any
  any-append p [] ys = refl
  any-append p (x ∷ xs) ys = ground (arith, any-append p xs ys)

  pub filter-append :
      (p : A → Bool) (xs ys : List A) → filter p (xs ++ ys) ≡ filter p xs ++ filter p ys
  unfolding filter
  filter-append p [] ys = refl
  filter-append p (x ∷ xs) ys = ground (arith, filter-append p xs ys)

  pub any-filter : (p q : A → Bool) (xs : List A) → any q (filter p xs) ≡ any (λ x. p x && q x) xs
  unfolding any filter
  any-filter p q [] = refl
  any-filter p q (x ∷ xs) = ground (arith, any-filter p q xs)

  -- A record is found exactly when some record passes, and the one found passes and is of the list.
  pub find-none_iff : (p : A → Bool) (xs : List A) → (find p xs ≡ none) ↔ (any p xs ≡ false)
  unfolding any find
  find-none_iff p [] = ground arith
  find-none_iff p (x ∷ xs) = ground (arith, find-none_iff p xs)

  pub find-some {κ} :
      (P : A → Type κ) (p : A → Bool) (xs : List A) (a : A)
      → All P xs
      → find p xs ≡ some a
      → P a × (p a ≡ true)
  unfolding find
  find-some P p [] a h e = cc e
  find-some P p (x ∷ xs) a h e = elim (Bool-cases (p x)) [
    | inl keep ↦
        let whole : some x ≡ some a = rw keep at e in
        let found : x ≡ a = cc whole in rw (← found) (h.0, keep)
    | inr drop ↦ find-some P p xs a h.1 (rw drop at e)
  ]

  pub All-reverse_onto {κ} :
      (P : A → Type κ) (acc xs : List A) → All P acc → All P xs → All P (reverse_onto acc xs)
  unfolding reverse_onto
  All-reverse_onto P acc [] h k = h
  All-reverse_onto P acc (x ∷ xs) h k = All-reverse_onto P (x ∷ acc) xs (k.0, h) k.1

module _ {ℓ κ} {A : Type ℓ} ⦃e : Eq A⦄ (P : A → Type κ) where
  -- What all elements have, each that is included has.
  pub All-of_contains : (xs : List A) (a : A) → All P xs → contains xs a ≡ true → P a
  unfolding contains
  All-of_contains [] a h k = cc k
  All-of_contains (x ∷ xs) a h k = elim (Bool-cases (x == a)) [
    | inl same ↦ rw (← (e.beq_iff x a).0 same) h.0
    | inr other ↦ All-of_contains xs a h.1 (rw other at k)
  ]
