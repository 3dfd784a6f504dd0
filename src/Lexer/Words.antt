-- ===== src/Lexer/Words.antt =====
-- Two habits of src/kernel/js-ts-lex.ts: how long its output gets when the source ends within a
-- string, and what it takes for the last word before a slash.
use mathlib.Core.List.{append-nil, append_assoc}
use uads.Common.{
  sym, length-append, ℕ, true, false, ◌+◌, List, [], ◌∷◌, ◌++◌, some, All, eqb, length, ◌≡◌, refl,
  arith,
}
use uads.Lexer.Units.{backslash, is_newline, is_quote, is_ident_part, is_space, space_char}
use uads.Lexer.Scan.{Scan, scan_quoted}
use uads.Lexer.Machine.{LexState, after_code, mask_quoted, code_step, lex, mask_non_code_js_ts}

-- A unit that neither ends a string in double quotes nor escapes the next one.
abbrev pub IsPlain : ℕ → Type 0
IsPlain c = (eqb c 34 ≡ false) × (eqb c backslash ≡ false) × (is_newline c ≡ false)

scan_plain :
    (body : List ℕ)
    → All IsPlain body
    → ((scan_quoted 34 false (body ++ (backslash ∷ []))).rest ≡ [])
      × (length (scan_quoted 34 false (body ++ (backslash ∷ []))).written ≡ length body + 2)
unfolding scan_quoted space_char
scan_plain [] h = ground arith
scan_plain (c ∷ cs) ((q, b, n), h) =
    let (ended, long) = scan_plain cs h in rw q (rw b (rw n (ended, omega (arith, long))))

-- A source that is a double quote, then plain units, then a backslash at the very end is masked
-- to one unit more than it has.
pub mask_non_code_js_ts_overrun :
    (body : List ℕ)
    → All IsPlain body
    → (out : List ℕ) × (mask_non_code_js_ts (34 ∷ (body ++ (backslash ∷ []))) ≡ some out)
      × (length out ≡ length (34 ∷ (body ++ (backslash ∷ []))) + 1)
unfolding mask_non_code_js_ts lex code_step mask_quoted is_quote
mask_non_code_js_ts_overrun body h =
    let r : Scan = scan_quoted 34 false (body ++ (backslash ∷ [])) in
    let (ended, long) = scan_plain body h in
    rw ended (
      _,
      refl,
      omega (
        arith,
        long,
        length-append (r.written ++ []) [],
        length-append r.written [],
        length-append body (backslash ∷ []),
      ),
    )

-- The state behind some units of code.
unfoldable pub after_all : LexState → List ℕ → LexState
after_all st [] = st
after_all st (c ∷ cs) = after_all (after_code st c) cs

after_all-append :
    (st : LexState) (xs ys : List ℕ) → after_all st (xs ++ ys) ≡ after_all (after_all st xs) ys
unfolding after_all
after_all-append st [] ys = refl
after_all-append st (x ∷ xs) ys = after_all-append (after_code st x) xs ys

abbrev pub IsWordUnit : ℕ → Type 0
IsWordUnit c = (is_ident_part c ≡ true) × (is_space c ≡ false)

after_word :
    (st : LexState) (w : List ℕ)
    → All IsWordUnit w
    → (after_all st w).last_ident ≡ st.last_ident ++ w
unfolding after_all after_code
after_word st [] h = sym (append-nil st.last_ident)
after_word st (c ∷ w) h =
    let (part, solid) = h.0 in
    let here : (after_code st c).last_ident ≡ st.last_ident ++ (c ∷ []) =
      ground (arith, part, solid) in
    cc (after_word (after_code st c) w h.1, here, append_assoc st.last_ident (c ∷ []) w)

after_blanks :
    (st : LexState) (ws : List ℕ) → All (λ c. is_space c ≡ true) ws → after_all st ws ≡ st
unfolding after_all after_code
after_blanks st [] h = refl
after_blanks st (c ∷ ws) h =
    let same : after_code st c ≡ st = ground (arith, h.0) in rw same (after_blanks st ws h.1)

-- White space does not end the word that the masker remembers: of two words with white space
-- between them it remembers one word, the first run into the second.
pub words_run_together :
    (st : LexState) (first blanks second : List ℕ)
    → All IsWordUnit first
    → All (λ c. is_space c ≡ true) blanks
    → All IsWordUnit second
    → (after_all st (first ++ (blanks ++ second))).last_ident ≡ st.last_ident ++ (first ++ second)
words_run_together st first blanks second f b s = cc (
  after_all-append st first (blanks ++ second),
  after_all-append (after_all st first) blanks second,
  after_blanks (after_all st first) blanks b,
  after_word (after_all st first) second s,
  after_word st first f,
  append_assoc st.last_ident first second,
)
