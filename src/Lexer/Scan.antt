-- ===== src/Lexer/Scan.antt =====
-- The scans of `maskNonCodeJsTs` of src/kernel/js-ts-lex.ts that run to the end of one comment,
-- string or regular expression. Each gives what it writes to the output and what is left.
use uads.Common.{
  ℕ, Bool, true, false, not, ◌||◌, ◌&&◌, List, [], ◌∷◌, eqb, head?, rest_of, if◌then◌else◌,
}
use uads.Lexer.Units.{
  blank, backslash, slash, star, open_bracket, close_bracket, is_newline, space_char, is_letter,
  is_unit,
}

pub record Scan : Type 0 where
  pub written : List ℕ
  pub rest : List ℕ

abbrev pub stop_at : List ℕ → Scan
stop_at cs = record { written = []; rest = cs }

abbrev pub write : ℕ → Scan → Scan
write c s = record { written = c ∷ s.written; rest = s.rest }

unfoldable pub scan_line_comment : List ℕ → Scan
scan_line_comment [] = stop_at []
scan_line_comment (c ∷ cs) =
    let onward = write (space_char c) (scan_line_comment cs) in
    if is_newline c then stop_at (c ∷ cs) else onward

-- From behind the `/*` on: up to and with the `*/`, or all.
unfoldable pub scan_block_comment : List ℕ → Scan
scan_block_comment [] = stop_at []
scan_block_comment (c ∷ cs) =
    let onward = write (space_char c) (scan_block_comment cs) in
    if eqb c star && is_unit slash (head? cs)
    then write (space_char c) (write (space_char slash) (stop_at (rest_of cs)))
    else onward

-- What `i += 2` skips when nothing follows a backslash: a place behind the end, which
-- `writeMasked` fills with a blank.
abbrev pub overrun : Bool → Scan
overrun escaped = record { written = if escaped then blank ∷ [] else []; rest = [] }

-- From behind the opening quote on; `escaped` behind a backslash.
unfoldable pub scan_quoted : ℕ → Bool → List ℕ → Scan
scan_quoted quote escaped [] = overrun escaped
scan_quoted quote escaped (c ∷ cs) =
    let onward = write (space_char c) (scan_quoted quote (not escaped && eqb c backslash) cs) in
    if not escaped && (not (eqb c backslash) && (eqb c quote || is_newline c))
    then stop_at (c ∷ cs)
    else onward

-- Whether a class `[…]` is open behind a unit that no backslash precedes.
abbrev pub class_after : Bool → ℕ → Bool
class_after in_class c =
    if eqb c open_bracket && not in_class
    then true
    else if eqb c close_bracket && in_class
    then false
    else in_class

-- The body of a regular expression, from behind its slash on.
unfoldable pub scan_regex : Bool → Bool → List ℕ → Scan
scan_regex in_class escaped [] = overrun escaped
scan_regex in_class escaped (c ∷ cs) =
    let class = if escaped || eqb c backslash then in_class else class_after in_class c in
    let onward = write (space_char c) (scan_regex class (not escaped && eqb c backslash) cs) in
    if not escaped && (not (eqb c backslash) && ((eqb c slash && not in_class) || is_newline c))
    then stop_at (c ∷ cs)
    else onward

-- The flags behind a regular expression, copied.
unfoldable pub scan_flags : List ℕ → Scan
scan_flags [] = stop_at []
scan_flags (c ∷ cs) =
    let onward = write c (scan_flags cs) in if is_letter c then onward else stop_at (c ∷ cs)

-- `if (source[i] === c) { out[i] = c; i += 1; }`
abbrev pub closing : ℕ → List ℕ → Scan
closing k [] = stop_at []
closing k (c ∷ cs) = if eqb c k then write k (stop_at cs) else stop_at (c ∷ cs)
