-- ===== src/Common/Text.antt =====
-- The text methods of the source over native strings. Lower-casing is that of the ASCII letters:
-- the words that the source looks for are ASCII.
use Prim.Native.Nat.{ℕ}
use Prim.Native.Char.{Char, code}
use Prim.Native.String
use Prim.Native.String.{String, [], ◌∷◌}
use mathlib.Core.Bool.{Bool, true, false}
use mathlib.Core.Option.{none, some}
use mathlib.Core.List.{List, [], ◌∷◌}
use text.Mathlib.Text.{find?}
use uads.Common.Tests.{eqb, if◌then◌else◌}
use uads.Common.Lists.{any}

-- The ASCII capitals with the letters that they are lowered to.
abbrev letters : List (ℕ × Char)
letters =
    (b'A', "a")
    ∷ (b'B', "b")
    ∷ (b'C', "c")
    ∷ (b'D', "d")
    ∷ (b'E', "e")
    ∷ (b'F', "f")
    ∷ (b'G', "g")
    ∷ (b'H', "h")
    ∷ (b'I', "i")
    ∷ (b'J', "j")
    ∷ (b'K', "k")
    ∷ (b'L', "l")
    ∷ (b'M', "m")
    ∷ (b'N', "n")
    ∷ (b'O', "o")
    ∷ (b'P', "p")
    ∷ (b'Q', "q")
    ∷ (b'R', "r")
    ∷ (b'S', "s")
    ∷ (b'T', "t")
    ∷ (b'U', "u")
    ∷ (b'V', "v")
    ∷ (b'W', "w")
    ∷ (b'X', "x")
    ∷ (b'Y', "y")
    ∷ (b'Z', "z")
    ∷ []

lower_from : List (ℕ × Char) → Char → Char
lower_from [] c = c
lower_from ((n, small) ∷ rest) c = if eqb (code c) n then small else lower_from rest c

-- `s.toLowerCase()`
unfoldable pub to_lower_case : String → String
unfolding lower_from
to_lower_case [] = []
to_lower_case (c ∷ s) = lower_from letters c ∷ to_lower_case s

-- `s.includes(t)`
unfoldable pub includes : String → String → Bool
includes s t = elim (find? s t) [ none ↦ false | some i ↦ true ]

-- `words.join(" ")`
unfoldable pub join_words : List String → String
join_words [] = ""
join_words (w ∷ []) = w
join_words (w ∷ ws) = String.◌++◌ w (String.◌++◌ " " (join_words ws))

infixr 64 ◌&◌
abbrev pub ◌&◌ : String → String → String
s & t = String.◌++◌ s t

-- One of the texts occurs: a regular expression of plain alternatives, or `needles.some(...)`.
unfoldable pub includes_one : String → List String → Bool
unfolding any includes
includes_one s words = any (includes s) words
