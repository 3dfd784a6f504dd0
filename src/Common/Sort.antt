-- ===== src/Common/Sort.antt =====
-- `Array.prototype.sort`, which is stable: insertion, by a comparator's sign. The first element of
-- a sorted list is one that no other comes before, for a comparator that is a total preorder.
use mathlib.Core.Path.{◌≡◌, refl}
use mathlib.Core.Logic.{◌⊎◌, inl, inr}
use mathlib.Core.Bool.{true, false, ◌||◌}
use mathlib.Core.List.{List, [], ◌∷◌}
use native.Mathlib.Omega.{arith}
use uads.Common.Tests.{if◌then◌else◌, Bool-cases}
use uads.Common.Int.{ℤ, is_le_zero}
use uads.Common.Lists.{All}
use uads.Common.Equality.{Eq, contains}

module _ {ℓ} {A : Type ℓ} where
  abbrev pub Before : (A → A → ℤ) → A → A → Type 0
  Before cmp a b = is_le_zero (cmp a b) ≡ true

  pub record IsOrder (cmp : A → A → ℤ) : Type ℓ where
    pub total : (a b : A) → Before cmp a b ⊎ Before cmp b a
    pub trans : (a b c : A) → Before cmp a b → Before cmp b c → Before cmp a c

module _ {ℓ} {A : Type ℓ} where
  -- An element goes behind those that compare equal, so equal elements keep their order.
  unfoldable pub insert_by : (A → A → ℤ) → A → List A → List A
  insert_by cmp a [] = a ∷ []
  insert_by cmp a (x ∷ xs) =
      let later = x ∷ insert_by cmp a xs in if is_le_zero (cmp x a) then later else a ∷ x ∷ xs

  unfoldable pub sort_from : (A → A → ℤ) → List A → List A → List A
  sort_from cmp done [] = done
  sort_from cmp done (x ∷ xs) = sort_from cmp (insert_by cmp x done) xs

  abbrev pub sort_by : (A → A → ℤ) → List A → List A
  sort_by cmp = sort_from cmp []

-- What `insert_by` and `sort_by` keep: every predicate that holds of all elements.
module _ {ℓ κ} {A : Type ℓ} (cmp : A → A → ℤ) (P : A → Type κ) where
  All-insert_by : (a : A) (xs : List A) → P a → All P xs → All P (insert_by cmp a xs)
  unfolding insert_by
  All-insert_by a [] p h = (p, tt)
  All-insert_by a (x ∷ xs) p h = elim (Bool-cases (is_le_zero (cmp x a))) [
    | inl later ↦ rw later (h.0, All-insert_by a xs p h.1)
    | inr here ↦ rw here (p, h)
  ]

  All-sort_from : (done xs : List A) → All P done → All P xs → All P (sort_from cmp done xs)
  unfolding sort_from
  All-sort_from done [] d h = d
  All-sort_from done (x ∷ xs) d h =
      All-sort_from (insert_by cmp x done) xs (All-insert_by x done h.0 d) h.1

  pub All-sort_by : (xs : List A) → All P xs → All P (sort_by cmp xs)
  All-sort_by xs h = All-sort_from [] xs tt h

  All-of_insert_by : (a : A) (xs : List A) → All P (insert_by cmp a xs) → P a × All P xs
  unfolding insert_by
  All-of_insert_by a [] h = h
  All-of_insert_by a (x ∷ xs) h = elim (Bool-cases (is_le_zero (cmp x a))) [
    | inl later ↦
        let (p, q) = rw later at h in
        let (here, rest) = All-of_insert_by a xs q in (here, (p, rest))
    | inr here ↦ rw here at h
  ]

  All-of_sort_from : (done xs : List A) → All P (sort_from cmp done xs) → All P done × All P xs
  unfolding sort_from
  All-of_sort_from done [] h = (h, tt)
  All-of_sort_from done (x ∷ xs) h =
      let (d, rest) = All-of_sort_from (insert_by cmp x done) xs h in
      let (here, before) = All-of_insert_by x done d in (before, (here, rest))

  pub All-of_sort_by : (xs : List A) → All P (sort_by cmp xs) → All P xs
  All-of_sort_by xs h = (All-of_sort_from [] xs h).1

module _ {ℓ} {A : Type ℓ} (cmp : A → A → ℤ) where
  abbrev pub IsSorted : List A → Type 0
  IsSorted [] = Unit
  IsSorted (x ∷ xs) = All (Before cmp x) xs × IsSorted xs

module _ {ℓ} {A : Type ℓ} (cmp : A → A → ℤ) (o : IsOrder cmp) where
  All-Before_trans :
      (a b : A) (xs : List A) → Before cmp a b → All (Before cmp b) xs → All (Before cmp a) xs
  All-Before_trans a b [] h k = tt
  All-Before_trans a b (x ∷ xs) h k = (o.trans a b x h k.0, All-Before_trans a b xs h k.1)

  Before-of_not : (a b : A) → is_le_zero (cmp a b) ≡ false → Before cmp b a
  Before-of_not a b h = ground (arith, o.total a b)

  insert_by-IsSorted : (a : A) (xs : List A) → IsSorted cmp xs → IsSorted cmp (insert_by cmp a xs)
  unfolding insert_by
  insert_by-IsSorted a [] s = (tt, tt)
  insert_by-IsSorted a (x ∷ xs) s = elim (Bool-cases (is_le_zero (cmp x a))) [
    | inl later ↦
        rw later (All-insert_by cmp (Before cmp x) a xs later s.0, insert_by-IsSorted a xs s.1)
    | inr here ↦
        let first = Before-of_not x a here in
        rw here ((first, All-Before_trans a x xs first s.0), s)
  ]

  sort_from-IsSorted : (done xs : List A) → IsSorted cmp done → IsSorted cmp (sort_from cmp done xs)
  unfolding sort_from
  sort_from-IsSorted done [] s = s
  sort_from-IsSorted done (x ∷ xs) s =
      sort_from-IsSorted (insert_by cmp x done) xs (insert_by-IsSorted x done s)

  pub sort_by-IsSorted : (xs : List A) → IsSorted cmp (sort_by cmp xs)
  sort_by-IsSorted xs = sort_from-IsSorted [] xs tt

  Before-refl : (a : A) → Before cmp a a
  Before-refl a = ground (arith, o.total a a)

  -- What stands first after sorting comes before every element of the list.
  pub sort_by_first :
      (xs : List A) {m : A} {rest : List A} → sort_by cmp xs ≡ m ∷ rest → All (Before cmp m) xs
  sort_by_first xs {m} {rest} e =
      let s : IsSorted cmp (m ∷ rest) = rw e at (sort_by-IsSorted xs) in
      All-of_sort_by cmp (Before cmp m) xs (rw e (Before-refl m, s.0))

module _ {ℓ} {A : Type ℓ} ⦃e : Eq A⦄ (cmp : A → A → ℤ) (b : A) where
  contains-insert_by :
      (a : A) (xs : List A) → contains (insert_by cmp a xs) b ≡ (e.beq a b || contains xs b)
  unfolding insert_by contains
  contains-insert_by a [] = refl
  contains-insert_by a (x ∷ xs) = ground (arith, contains-insert_by a xs)

  contains-sort_from :
      (done xs : List A) → contains (sort_from cmp done xs) b ≡ (contains done b || contains xs b)
  unfolding sort_from contains
  contains-sort_from done [] = ground arith
  contains-sort_from done (x ∷ xs) =
      ground (arith, contains-sort_from (insert_by cmp x done) xs, contains-insert_by x done)

  -- Sorting keeps the members.
  pub contains-sort_by : (xs : List A) → contains (sort_by cmp xs) b ≡ contains xs b
  unfolding contains
  contains-sort_by xs = contains-sort_from [] xs
