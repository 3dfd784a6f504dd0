-- ===== src/Lexer/Covers.antt =====
-- What a masked text keeps of its source, and that each scan keeps it.
use uads.Common.{
  ℕ, Bool, true, false, not, ◌||◌, ◌&&◌, ◌≤◌, List, [], ◌∷◌, ◌++◌, eqb, eqb_iff, head?, length,
  rest_of, if◌then◌else◌, ◌≡◌, ◌⊎◌, inl, inr, refl, sym, ◌∙◌, arith, Bool-cases,
}
use uads.Lexer.Units.{backslash, blank, slash, star, is_newline, space_char, is_letter, is_unit}
use uads.Lexer.Scan.{
  Scan, scan_line_comment, scan_block_comment, scan_quoted, scan_regex, scan_flags, closing,
  class_after, overrun, stop_at, write,
}

-- One unit of the output: the unit of the source, or a blank that hides no line end.
abbrev pub IsMaskOf : ℕ → ℕ → Type 0
IsMaskOf o c = (o ≡ c) ⊎ ((o ≡ blank) × (is_newline c ≡ false))

-- The units written stand for the source up to `rest`, one for one; behind the end of the source
-- one blank may follow.
abbrev pub Covers : List ℕ → List ℕ → List ℕ → Type 0
Covers [] s rest = s ≡ rest
Covers (o ∷ w) [] rest = (o ≡ blank) × (w ≡ []) × (rest ≡ [])
Covers (o ∷ w) (c ∷ s) rest = IsMaskOf o c × Covers w s rest

pub Covers-append :
    (w s mid v rest : List ℕ)
    → Covers w s mid
    → Covers v mid rest
    → (mid ≡ [] → v ≡ [])
    → Covers (w ++ v) s rest
Covers-append [] s mid v rest h k e = rw h k
Covers-append (o ∷ w) [] mid v rest (b, nothing, ended) k e =
    let empty : v ≡ [] = e ended in
    let left : mid ≡ rest = rw empty at k in (b, rw nothing empty, sym left ∙ ended)
Covers-append (o ∷ w) (c ∷ s) mid v rest (m, h) k e = (m, Covers-append w s mid v rest h k e)

pub space_char-IsMaskOf : (c : ℕ) → IsMaskOf (space_char c) c
unfolding space_char
space_char-IsMaskOf c = ground arith

-- What a scan gives: a covering, no more left than there was, and nothing of nothing.
abbrev pub IsScan : Scan → List ℕ → Type 0
IsScan r s = Covers r.written s r.rest × (length r.rest ≤ length s)

pub write-IsScan :
    (c : ℕ) (r : Scan) (s : List ℕ) → IsScan r s → IsScan (write (space_char c) r) (c ∷ s)
write-IsScan c r s (h, k) = ((space_char-IsMaskOf c, h), omega (arith, k))

-- A loop that ends before a unit or masks it and goes on.
either_IsScan :
    (ends : Bool) (c : ℕ) (s : List ℕ) (onward : Scan)
    → IsScan onward s
    → IsScan (if ends then stop_at (c ∷ s) else write (space_char c) onward) (c ∷ s)
either_IsScan true c s onward h = (refl, omega arith)
either_IsScan false c s onward h = write-IsScan c onward s h

-- The `/` that ends a block comment.
comment_end :
    (c : ℕ) (s : List ℕ)
    → (eqb c star && is_unit slash (head? s)) ≡ true
    → IsScan (write (space_char slash) (stop_at (rest_of s))) s
comment_end c [] h = ground arith
comment_end c (d ∷ s) h =
    let same : slash ≡ d = ground (arith, h) in
    rw same (write-IsScan d (stop_at s) s (refl, omega arith))

pub scan_line_comment-IsScan : (s : List ℕ) → IsScan (scan_line_comment s) s
unfolding scan_line_comment
scan_line_comment-IsScan [] = (refl, omega arith)
scan_line_comment-IsScan (c ∷ s) =
    either_IsScan (is_newline c) c s (scan_line_comment s) (scan_line_comment-IsScan s)

pub scan_block_comment-IsScan : (s : List ℕ) → IsScan (scan_block_comment s) s
unfolding scan_block_comment
scan_block_comment-IsScan [] = (refl, omega arith)
scan_block_comment-IsScan (c ∷ s) = elim (Bool-cases (eqb c star && is_unit slash (head? s))) [
  | inl ends ↦
      rw ends
        (write-IsScan c (write (space_char slash) (stop_at (rest_of s))) s (comment_end c s ends))
  | inr on ↦ rw on (write-IsScan c (scan_block_comment s) s (scan_block_comment-IsScan s))
]

overrun-IsScan : (escaped : Bool) → IsScan (overrun escaped) []
overrun-IsScan true = ((refl, refl, refl), omega arith)
overrun-IsScan false = (refl, omega arith)

pub scan_quoted-IsScan :
    (quote : ℕ) (escaped : Bool) (s : List ℕ) → IsScan (scan_quoted quote escaped s) s
unfolding scan_quoted
scan_quoted-IsScan quote escaped [] = overrun-IsScan escaped
scan_quoted-IsScan quote escaped (c ∷ s) =
    let onward = scan_quoted quote (not escaped && eqb c backslash) s in
    either_IsScan (not escaped && (not (eqb c backslash) && (eqb c quote || is_newline c))) c s
      onward (scan_quoted-IsScan quote (not escaped && eqb c backslash) s)

pub scan_regex-IsScan :
    (in_class escaped : Bool) (s : List ℕ) → IsScan (scan_regex in_class escaped s) s
unfolding scan_regex
scan_regex-IsScan in_class escaped [] = overrun-IsScan escaped
scan_regex-IsScan in_class escaped (c ∷ s) =
    let class = if escaped || eqb c backslash then in_class else class_after in_class c in
    either_IsScan
      (not escaped && (not (eqb c backslash) && ((eqb c slash && not in_class) || is_newline c))) c
      s (scan_regex class (not escaped && eqb c backslash) s)
      (scan_regex-IsScan class (not escaped && eqb c backslash) s)

pub scan_flags-IsScan : (s : List ℕ) → IsScan (scan_flags s) s
unfolding scan_flags
scan_flags-IsScan [] = (refl, omega arith)
scan_flags-IsScan (c ∷ s) =
    let (h, k) = scan_flags-IsScan s in
    elim (Bool-cases (is_letter c)) [
      | inl on ↦ rw on ((inl refl, h), omega (arith, k))
      | inr ends ↦ rw ends (refl, omega arith)
    ]

pub closing-IsScan : (mark : ℕ) (s : List ℕ) → IsScan (closing mark s) s
closing-IsScan mark [] = (refl, omega arith)
closing-IsScan mark (c ∷ s) = elim (Bool-cases (eqb c mark)) [
  | inl same ↦ rw same ((inl (sym ((eqb_iff c mark).0 same)), refl), omega arith)
  | inr other ↦ rw other (refl, omega arith)
]
