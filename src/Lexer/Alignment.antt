-- ===== src/Lexer/Alignment.antt =====
-- `maskNonCodeJsTs` of src/kernel/js-ts-lex.ts ends, and its output stays aligned with the source.
use uads.Common.{
  ◌≢◌, ap, ℕ, zero, suc, Bool, true, false, ◌+◌, ◌≤◌, ◌<◌, List, [], ◌∷◌, ◌++◌, Option, some,
  length, ◌≡◌, refl, arith, filter,
}
use uads.Lexer.Units.{is_newline}
use uads.Lexer.Machine.{
  LexState, Mode, Action, top, template, brace, stop, go, enter, Lexed, fresh_state, code_step,
  step, lex, run, mask_non_code_js_ts, mask_quoted, mask_regex, mask_line_comment,
  mask_block_comment, copy_code,
}
use uads.Lexer.Covers.{Covers, Covers-append}
use uads.Lexer.Turns.{IsStep, step-IsStep}

-- The loops gave a result, which covers a part of the source, all of it in the main loop.
abbrev IsLexed : Mode → List ℕ → Lexed → Type 0
IsLexed mode s r =
    Covers r.written s r.rest
    × (length r.rest ≤ length s)
    × (s ≡ [] → r.written ≡ [])
    × (mode ≡ top → r.rest ≡ [])

abbrev Done : Option Lexed → Mode → List ℕ → Type 0
Done o mode s = (r : Lexed) × (o ≡ some r) × IsLexed mode s r

-- The turns of the main loop never end it.
abbrev is_top : Mode → Bool
is_top top = true
is_top template = false
is_top (brace depth) = false

abbrev stays_top : Action → Bool
stays_top (stop w rest st) = false
stays_top (go next w rest st) = is_top next
stays_top (enter inner next w rest st) = is_top next

is_top-eq : (m : Mode) → is_top m ≡ true → m ≡ top
is_top-eq top e = refl
is_top-eq template e = cc e
is_top-eq (brace depth) e = cc e

template_is_not_top : template ≢ top
template_is_not_top e = let seen : false ≡ true = ap is_top e in cc seen

brace_is_not_top : (depth : ℕ) → brace depth ≢ top
brace_is_not_top depth e = let seen : false ≡ true = ap is_top e in cc seen

step-stays_top :
    (mode : Mode) (st : LexState) (c : ℕ) (s : List ℕ)
    → mode ≡ top
    → stays_top (step mode st c s) ≡ true
unfolding code_step mask_quoted mask_regex mask_line_comment mask_block_comment copy_code
step-stays_top top st c s e = ground arith
step-stays_top template st c s e = absurd (template_is_not_top e)
step-stays_top (brace depth) st c s e = absurd (brace_is_not_top depth e)

-- Enough fuel for shorter sources is enough for a turn and what follows it.
run-Done :
    (loop : Mode → LexState → List ℕ → Option Lexed) (n : ℕ) (mode : Mode) (a : Action) (c : ℕ)
    (s : List ℕ)
    → ((next : Mode) (st : LexState) (t : List ℕ) → length t < n → Done (loop next st t) next t)
    → length s < n
    → IsStep a (c ∷ s)
    → (mode ≡ top → stays_top a ≡ true)
    → Done (run loop a) mode (c ∷ s)
run-Done loop n mode (stop w rest st) c s ih fuel (h, k) stays =
    (_, refl, (h, omega (arith, k), (λ e. cc e), (λ e. cc (stays e))))
run-Done loop n mode (go next w rest st) c s ih fuel (h, k) stays =
    let (r, e, (covers, short, empty, ended)) = ih next st rest (omega (arith, fuel, k)) in
    rw e (
      _,
      refl,
      (
        Covers-append w (c ∷ s) rest r.written r.rest h covers empty,
        omega (arith, k, short),
        (λ x. cc x),
        (λ x. ended (is_top-eq next (stays x))),
      ),
    )
run-Done loop n mode (enter inner next w rest st) c s ih fuel (h, k) stays =
    let (r, e, (covers, short, empty, ended)) = ih inner st rest (omega (arith, fuel, k)) in
    let (r2, e2, (covers2, short2, empty2, ended2)) =
      ih next r.state r.rest (omega (arith, fuel, k, short)) in
    let nested = Covers-append w (c ∷ s) rest r.written r.rest h covers empty in
    rw e (
      rw e2 (
        _,
        refl,
        (
          Covers-append (w ++ r.written) (c ∷ s) r.rest r2.written r2.rest nested covers2 empty2,
          omega (arith, k, short, short2),
          (λ x. cc x),
          (λ x. ended2 (is_top-eq next (stays x))),
        ),
      ))

pub lex-Done :
    (n : ℕ) (mode : Mode) (st : LexState) (s : List ℕ)
    → length s < n
    → Done (lex n mode st s) mode s
unfolding lex
lex-Done zero mode st s fuel = let no : ⊥ = omega (arith, fuel) in absurd no
lex-Done (suc n) mode st [] fuel = (_, refl, (refl, omega arith, (λ e. refl), (λ e. refl)))
lex-Done (suc n) mode st (c ∷ s) fuel =
    run-Done (lex n) n mode (step mode st c s) c s (λ next st' t. lex-Done n next st' t)
      (omega (arith, fuel)) (step-IsStep mode st c s) (λ e. step-stays_top mode st c s e)

Covers-ends :
    (w s : List ℕ)
    → Covers w s []
    → (filter is_newline w ≡ filter is_newline s)
      × (length s ≤ length w)
      × (length w ≤ length s + 1)
unfolding filter is_newline
Covers-ends [] s h = rw h (refl, omega arith, omega arith)
Covers-ends (o ∷ w) [] (b, nothing, ended) = rw b (rw nothing (refl, omega arith, omega arith))
Covers-ends (o ∷ w) (c ∷ s) (m, h) =
    let (ends, low, high) = Covers-ends w s h in
    (ground (arith, m, ends), omega (arith, low), omega (arith, high))

ap_rest : (w s rest : List ℕ) → rest ≡ [] → Covers w s rest → Covers w s []
ap_rest w s rest e h = rw e at h

-- The masker gives a result for every source. Each unit of it is the unit of the source at the
-- same place, or a blank in the place of a unit that ends no line; behind the last place one
-- blank more may stand.
pub mask_non_code_js_ts_aligned :
    (source : List ℕ)
    → (out : List ℕ) × (mask_non_code_js_ts source ≡ some out) × Covers out source []
unfolding mask_non_code_js_ts
mask_non_code_js_ts_aligned source =
    let (r, e, (covers, short, empty, ended)) =
      lex-Done (suc (length source)) top fresh_state source (omega arith) in
    (r.written, rw e refl, ap_rest r.written source r.rest (ended refl) covers)

-- The line ends of the output are those of the source, in order, so that a line number of the one
-- is a line number of the other, and the output is as long as the source or longer by one unit.
pub mask_non_code_js_ts_lines :
    (source : List ℕ)
    → (out : List ℕ) × (mask_non_code_js_ts source ≡ some out)
      × (filter is_newline out ≡ filter is_newline source)
      × (length source ≤ length out)
      × (length out ≤ length source + 1)
mask_non_code_js_ts_lines source =
    let (out, e, covers) = mask_non_code_js_ts_aligned source in
    let (ends, low, high) = Covers-ends out source covers in (out, e, ends, low, high)
