-- ===== src/Lexer/Turns.antt =====
-- Each turn of the loops of src/kernel/js-ts-lex.ts goes forward and stays aligned with the source.
use uads.Common.{
  ℕ, ◌-◌, Bool, true, false, ◌&&◌, ◌+◌, ◌≤◌, ◌<◌, List, [], ◌∷◌, ◌++◌, eqb, eqb_iff, head?, length,
  rest_of, if◌then◌else◌, ◌≡◌, inl, refl, sym, arith,
}
use uads.Lexer.Units.{
  backslash, slash, star, backtick, dollar, open_brace, close_brace, is_quote, is_newline,
  space_char, is_unit,
}
use uads.Lexer.Scan.{Scan, scan_line_comment, scan_quoted, scan_regex, scan_flags, closing}
use uads.Lexer.Machine.{
  LexState, Mode, Action, top, template, brace, stop, go, enter, after_mark, mask_quoted,
  mask_regex, mask_line_comment, mask_block_comment, copy_code, copy_step, code_step, mask_escape,
  template_step, step, regex_likely,
}
use uads.Lexer.Covers.{
  IsMaskOf, Covers, Covers-append, IsScan, space_char-IsMaskOf, scan_line_comment-IsScan,
  scan_block_comment-IsScan, scan_quoted-IsScan, scan_regex-IsScan, scan_flags-IsScan,
  closing-IsScan,
}

-- What one turn of a loop does to a source that is not empty: it covers a part and goes forward.
abbrev pub IsTurn : List ℕ → List ℕ → List ℕ → Type 0
IsTurn w s rest = Covers w s rest × (length rest < length s)

abbrev pub IsStep : Action → List ℕ → Type 0
IsStep (stop w rest st) s = IsTurn w s rest
IsStep (go next w rest st) s = IsTurn w s rest
IsStep (enter inner next w rest st) s = IsTurn w s rest

closing-nil : (mark : ℕ) (s : List ℕ) → s ≡ [] → (closing mark s).written ≡ []
closing-nil mark [] e = refl
closing-nil mark (c ∷ s) e = cc e

-- A scan and the closing mark behind it.
closed-IsScan :
    (mark : ℕ) (r : Scan) (s : List ℕ)
    → IsScan r s
    → Covers (r.written ++ (closing mark r.rest).written) s (closing mark r.rest).rest
      × (length (closing mark r.rest).rest ≤ length s)
closed-IsScan mark r s (h, k) =
    let (h2, k2) = closing-IsScan mark r.rest in
    (
      Covers-append r.written s r.rest (closing mark r.rest).written (closing mark r.rest).rest h h2
          (closing-nil mark r.rest),
      omega (arith, k, k2),
    )

mask_quoted-IsStep : (mode : Mode) (c : ℕ) (s : List ℕ) → IsStep (mask_quoted mode c s) (c ∷ s)
unfolding mask_quoted
mask_quoted-IsStep mode c s =
    let (h, k) = closed-IsScan c (scan_quoted c false s) s (scan_quoted-IsScan c false s) in
    ((inl refl, h), omega (arith, k))

flags-nil : (s : List ℕ) → s ≡ [] → (scan_flags s).written ≡ []
unfolding scan_flags
flags-nil [] e = refl
flags-nil (c ∷ s) e = cc e

flagged-nil :
    (s : List ℕ)
    → s ≡ []
    → (closing slash s).written ++ (scan_flags (closing slash s).rest).written ≡ []
unfolding scan_flags
flagged-nil [] e = refl
flagged-nil (c ∷ s) e = cc e

mask_regex-IsStep :
    (mode : Mode) (c : ℕ) (s : List ℕ) → c ≡ slash → IsStep (mask_regex mode s) (c ∷ s)
unfolding mask_regex
mask_regex-IsStep mode c s e =
    let body : Scan = scan_regex false false s in
    let end : Scan = closing slash body.rest in
    let flags : Scan = scan_flags end.rest in
    let (h, k) = scan_regex-IsScan false false s in
    let (h2, k2) = closing-IsScan slash body.rest in
    let (h3, k3) = scan_flags-IsScan end.rest in
    let tail =
      Covers-append end.written body.rest end.rest flags.written flags.rest h2 h3
        (flags-nil end.rest) in
    (
      (
        inl (sym e),
        Covers-append body.written s body.rest (end.written ++ flags.written) flags.rest h tail
            (flagged-nil body.rest),
      ),
      omega (arith, k, k2, k3),
    )

mask_line_comment-IsStep :
    (mode : Mode) (st : LexState) (c : ℕ) (s : List ℕ)
    → is_newline c ≡ false
    → IsStep (mask_line_comment mode st (c ∷ s)) (c ∷ s)
unfolding mask_line_comment scan_line_comment
mask_line_comment-IsStep mode st c s e =
    let (h, k) = scan_line_comment-IsScan s in rw e ((space_char-IsMaskOf c, h), omega (arith, k))

ap_mask : (k c : ℕ) → k ≡ c → IsMaskOf (space_char k) k → IsMaskOf (space_char k) c
ap_mask k c e h = rw (← e) h

mask_block_comment-IsStep :
    (mode : Mode) (st : LexState) (c : ℕ) (s : List ℕ)
    → (eqb c slash && is_unit star (head? s)) ≡ true
    → IsStep (mask_block_comment mode st s) (c ∷ s)
unfolding mask_block_comment
mask_block_comment-IsStep mode st c [] e = ground arith
mask_block_comment-IsStep mode st c (d ∷ s) e =
    let (h, k) = scan_block_comment-IsScan s in
    let first : slash ≡ c = ground (arith, e) in
    let second : star ≡ d = ground (arith, e) in
    (
      (
        ap_mask slash c first (space_char-IsMaskOf slash),
        (ap_mask star d second (space_char-IsMaskOf star), h),
      ),
      omega (arith, k),
    )

copy_code-IsStep :
    (mode : Mode) (st : LexState) (c : ℕ) (s : List ℕ) → IsStep (copy_code mode st c s) (c ∷ s)
unfolding copy_code
copy_code-IsStep mode st c s = ((inl refl, refl), omega arith)

if_IsStep :
    (b : Bool) (x y : Action) (s : List ℕ)
    → (b ≡ true → IsStep x s)
    → (b ≡ false → IsStep y s)
    → IsStep (if b then x else y) s
if_IsStep true x y s f g = f refl
if_IsStep false x y s f g = g refl

mark-IsTurn : (mark c : ℕ) (s : List ℕ) → eqb c mark ≡ true → IsTurn (mark ∷ []) (c ∷ s) s
mark-IsTurn mark c s e = ((inl (sym ((eqb_iff c mark).0 e)), refl), omega arith)

copy_step-IsStep :
    (mode : Mode) (st : LexState) (c : ℕ) (s : List ℕ) → IsStep (copy_step mode st c s) (c ∷ s)
copy_step-IsStep top st c s = copy_code-IsStep top st c s
copy_step-IsStep template st c s = copy_code-IsStep template st c s
copy_step-IsStep (brace depth) st c s =
    if_IsStep (eqb c open_brace) (copy_code (brace (depth + 1)) st c s)
      (if eqb c close_brace
        then (if eqb (depth - 1) 0
            then stop (close_brace ∷ []) s (after_mark close_brace)
            else copy_code (brace (depth - 1)) st c s)
        else copy_code (brace depth) st c s)
      (c ∷ s) (λ e. copy_code-IsStep (brace (depth + 1)) st c s)
      (λ e.
        if_IsStep (eqb c close_brace)
          (if eqb (depth - 1) 0
            then stop (close_brace ∷ []) s (after_mark close_brace)
            else copy_code (brace (depth - 1)) st c s)
          (copy_code (brace depth) st c s) (c ∷ s)
          (λ same.
            if_IsStep (eqb (depth - 1) 0) (stop (close_brace ∷ []) s (after_mark close_brace))
              (copy_code (brace (depth - 1)) st c s) (c ∷ s)
              (λ closed. mark-IsTurn close_brace c s same)
              (λ inside. copy_code-IsStep (brace (depth - 1)) st c s))
          (λ other. copy_code-IsStep (brace depth) st c s))

slash_of : (c : ℕ) (b : Bool) → (eqb c slash && b) ≡ true → c ≡ slash
slash_of c b h = ground arith

slash_is_inline : (c : ℕ) (b : Bool) → (eqb c slash && b) ≡ true → is_newline c ≡ false
unfolding is_newline
slash_is_inline c b h = ground arith

code_step-IsStep :
    (mode : Mode) (st : LexState) (c : ℕ) (s : List ℕ) → IsStep (code_step mode st c s) (c ∷ s)
unfolding code_step
code_step-IsStep mode st c s =
    if_IsStep (is_quote c) (mask_quoted mode c s) _ (c ∷ s) (λ e. mask_quoted-IsStep mode c s)
      (λ e.
        if_IsStep (eqb c backtick) (enter template mode (backtick ∷ []) s st) _ (c ∷ s)
          (λ same. mark-IsTurn backtick c s same)
          (λ other.
            if_IsStep (eqb c slash && is_unit slash (head? s)) (mask_line_comment mode st (c ∷ s)) _
              (c ∷ s)
              (λ h.
                mask_line_comment-IsStep mode st c s
                  (slash_is_inline c (is_unit slash (head? s)) h))
              (λ no_line.
                if_IsStep (eqb c slash && is_unit star (head? s)) (mask_block_comment mode st s) _
                  (c ∷ s) (λ h. mask_block_comment-IsStep mode st c s h)
                  (λ no_block.
                    if_IsStep (eqb c slash && regex_likely st) (mask_regex mode s)
                      (copy_step mode st c s) (c ∷ s)
                      (λ h. mask_regex-IsStep mode c s (slash_of c (regex_likely st) h))
                      (λ no_regex. copy_step-IsStep mode st c s)))))

mask_escape-IsStep : (st : LexState) (c : ℕ) (s : List ℕ) → IsStep (mask_escape st c s) (c ∷ s)
mask_escape-IsStep st c [] = ((space_char-IsMaskOf c, refl), omega arith)
mask_escape-IsStep st c (d ∷ s) =
    ((space_char-IsMaskOf c, (space_char-IsMaskOf d, refl)), omega arith)

hole-IsTurn :
    (c : ℕ) (s : List ℕ)
    → (eqb c dollar && is_unit open_brace (head? s)) ≡ true
    → IsTurn (dollar ∷ (open_brace ∷ [])) (c ∷ s) (rest_of s)
hole-IsTurn c [] h = ground arith
hole-IsTurn c (d ∷ s) h =
    let first : dollar ≡ c = ground (arith, h) in
    let second : open_brace ≡ d = ground (arith, h) in
    ((inl first, (inl second, refl)), omega arith)

template_step-IsStep : (st : LexState) (c : ℕ) (s : List ℕ) → IsStep (template_step st c s) (c ∷ s)
unfolding template_step
template_step-IsStep st c s =
    if_IsStep (eqb c backslash) (mask_escape st c s) _ (c ∷ s) (λ e. mask_escape-IsStep st c s)
      (λ e.
        if_IsStep (eqb c backtick) (stop (backtick ∷ []) s (after_mark backtick)) _ (c ∷ s)
          (λ same. mark-IsTurn backtick c s same)
          (λ other.
            if_IsStep (eqb c dollar && is_unit open_brace (head? s))
              (enter (brace 1) template (dollar ∷ (open_brace ∷ [])) (rest_of s) st)
              (go template (space_char c ∷ []) s st) (c ∷ s) (λ h. hole-IsTurn c s h)
              (λ plain. ((space_char-IsMaskOf c, refl), omega arith))))

-- One turn, in any mode and state, covers at least one unit.
pub step-IsStep :
    (mode : Mode) (st : LexState) (c : ℕ) (s : List ℕ) → IsStep (step mode st c s) (c ∷ s)
step-IsStep top st c s = code_step-IsStep top st c s
step-IsStep (brace depth) st c s = code_step-IsStep (brace depth) st c s
step-IsStep template st c s = template_step-IsStep st c s
