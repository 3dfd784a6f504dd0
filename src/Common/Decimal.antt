-- ===== src/Common/Decimal.antt =====
-- A number in a template literal: its decimal digits.
use Prim.Native.Nat.{ℕ, zero, suc, ◌/◌, ◌%◌}
use Prim.Native.String
use Prim.Native.String.{String}
use mathlib.Core.List.{List, [], ◌∷◌}
use uads.Common.Tests.{ltb, if◌then◌else◌}

abbrev digit_texts : List String
digit_texts = "0" ∷ "1" ∷ "2" ∷ "3" ∷ "4" ∷ "5" ∷ "6" ∷ "7" ∷ "8" ∷ "9" ∷ []

digit_at : List String → ℕ → String
digit_at [] n = ""
digit_at (d ∷ ds) zero = d
digit_at (d ∷ ds) (suc n) = digit_at ds n

decimal_from : ℕ → ℕ → String
decimal_from zero n = ""
decimal_from (suc fuel) n =
    let more = String.◌++◌ (decimal_from fuel (n / 10)) (digit_at digit_texts (n % 10)) in
    if ltb n 10 then digit_at digit_texts n else more

-- `n + 1` rounds are enough: each divides the number by ten.
unfoldable pub decimal : ℕ → String
unfolding decimal_from digit_at
decimal n = decimal_from (suc n) n
