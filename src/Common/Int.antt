-- ===== src/Common/Int.antt =====
-- Signed integers over the native numbers: what a comparator of the source returns, and the
-- lexicographic step `if (d !== 0) return d;` with the laws that make a chain of them an order.
use Prim.Native.Nat.{ℕ, suc, ◌+◌, ◌-◌, ◌≤◌}
use mathlib.Core.Path.{◌≡◌, refl}
use mathlib.Core.Logic.{◌⊎◌, inl, inr}
use mathlib.Core.Bool.{Bool, true, false}
use native.Mathlib.Omega.{arith}
use uads.Common.Tests.{leb, eqb, if◌then◌else◌}

-- `negsuc n` is -(n + 1).
pub data ℤ : Type 0 where
  pos : ℕ → ℤ
  negsuc : ℕ → ℤ

abbrev pub pos_part : ℤ → ℕ
pos_part (pos n) = n
pos_part (negsuc n) = 0

abbrev pub neg_part : ℤ → ℕ
neg_part (pos n) = 0
neg_part (negsuc n) = suc n

abbrev pub sub_ℕ : ℕ → ℕ → ℤ
sub_ℕ a b = if leb b a then pos (a - b) else negsuc (b - a - 1)

infixl 65 ◌-ℤ◌
infix 50 ◌≤ℤ◌
unfoldable pub ◌-ℤ◌ : ℤ → ℤ → ℤ
a -ℤ b = sub_ℕ (pos_part a + neg_part b) (neg_part a + pos_part b)

abbrev pub ◌≤ℤ◌ : ℤ → ℤ → Type 0
a ≤ℤ b = pos_part a + neg_part b ≤ pos_part b + neg_part a

abbrev pub zero_ℤ : ℤ
zero_ℤ = pos 0

pub -ℤ_parts :
    (a b : ℤ)
    → pos_part (a -ℤ b) + neg_part a + pos_part b ≡ neg_part (a -ℤ b) + pos_part a + neg_part b
unfolding ◌-ℤ◌
-ℤ_parts a b = ground arith

-- One part of an integer is zero.
pub parts_zero : (a : ℤ) → (pos_part a ≡ 0) ⊎ (neg_part a ≡ 0)
parts_zero (pos n) = inr refl
parts_zero (negsuc n) = inl refl

-- `d <= 0`, the test by which a sort takes its left argument first.
abbrev pub is_le_zero : ℤ → Bool
is_le_zero (pos n) = eqb n 0
is_le_zero (negsuc n) = true

abbrev pub is_zero : ℤ → Bool
is_zero (pos n) = eqb n 0
is_zero (negsuc n) = false

-- `if (d !== 0) return d; return rest;`
abbrev pub or_else : ℤ → ℤ → ℤ
or_else d rest = if is_zero d then rest else d

-- A lexicographic step is an order where what follows is one.
pub or_else_trans :
    (k l m r s t : ℤ)
    → (is_le_zero r ≡ true → is_le_zero s ≡ true → is_le_zero t ≡ true)
    → is_le_zero (or_else (k -ℤ l) r) ≡ true
    → is_le_zero (or_else (l -ℤ m) s) ≡ true
    → is_le_zero (or_else (k -ℤ m) t) ≡ true
or_else_trans k l m r s t h p q = ground (arith, -ℤ_parts k l, -ℤ_parts l m, -ℤ_parts k m)

pub or_else_total :
    (k l r s : ℤ)
    → (is_le_zero r ≡ true) ⊎ (is_le_zero s ≡ true)
    → (is_le_zero (or_else (k -ℤ l) r) ≡ true) ⊎ (is_le_zero (or_else (l -ℤ k) s) ≡ true)
or_else_total k l r s h = ground (arith, -ℤ_parts k l, -ℤ_parts l k)

-- The same for a step that puts the larger key first.
pub or_else_trans_rev :
    (k l m r s t : ℤ)
    → (is_le_zero r ≡ true → is_le_zero s ≡ true → is_le_zero t ≡ true)
    → is_le_zero (or_else (l -ℤ k) r) ≡ true
    → is_le_zero (or_else (m -ℤ l) s) ≡ true
    → is_le_zero (or_else (m -ℤ k) t) ≡ true
or_else_trans_rev k l m r s t h p q = ground (arith, -ℤ_parts l k, -ℤ_parts m l, -ℤ_parts m k)

-- The first step alone: what comes before has no greater key.
pub or_else_le : (k l r : ℤ) → is_le_zero (or_else (k -ℤ l) r) ≡ true → k ≤ℤ l
or_else_le k l r h = ground (arith, -ℤ_parts k l)
