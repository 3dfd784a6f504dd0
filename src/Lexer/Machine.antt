-- ===== src/Lexer/Machine.antt =====
-- The loops of `maskNonCodeJsTs` of src/kernel/js-ts-lex.ts: the main loop, `maskTemplate` and
-- `maskCodeUntilBrace`, which call each other, as one function with a mode.
use uads.Common.{
  ℕ, zero, suc, Bool, true, false, ◌||◌, ◌&&◌, ◌+◌, ◌-◌, List, [], ◌∷◌, ◌++◌, Option, none, some,
  eqb, head?, length, rest_of, if◌then◌else◌,
}
use uads.Lexer.Units.{
  backslash, slash, star, backtick, dollar, open_brace, close_brace, close_paren, is_quote,
  space_char, is_ident_part, is_space, is_unit, is_keyword_before_regex, is_operator,
}
use uads.Lexer.Scan.{
  Scan, scan_line_comment, scan_block_comment, scan_quoted, scan_regex, scan_flags, closing,
}

pub record LexState : Type 0 where
  pub last_significant : Option ℕ
  pub last_ident : List ℕ

abbrev pub fresh_state : LexState
fresh_state = record { last_significant = none; last_ident = [] }

-- `lastSignificant = c; lastIdent = ""`
abbrev pub after_mark : ℕ → LexState
after_mark c = record { last_significant = some c; last_ident = [] }

-- The state that `copyCode` leaves.
unfoldable pub after_code : LexState → ℕ → LexState
after_code st c = if is_space c then st else record {
  last_significant = some c;
  last_ident = if is_ident_part c then st.last_ident ++ (c ∷ []) else [];
}

abbrev regex_likely_after : Option ℕ → List ℕ → Bool
regex_likely_after none ident = true
regex_likely_after (some c) ident =
    if is_operator c
    then true
    else if eqb c close_brace || eqb c close_paren
    then false
    else is_keyword_before_regex ident

unfoldable pub regex_likely : LexState → Bool
regex_likely st = regex_likely_after st.last_significant st.last_ident

-- The main loop, `maskTemplate`, and `maskCodeUntilBrace` at a depth.
pub data Mode : Type 0 where
  top template : Mode
  brace : ℕ → Mode

-- One turn of a loop: what it writes, what is left of the source, and the state; then the loop
-- ends, goes on, or calls the loop of another mode before it goes on.
pub data Action : Type 0 where
  stop : List ℕ → List ℕ → LexState → Action
  go : Mode → List ℕ → List ℕ → LexState → Action
  enter : Mode → Mode → List ℕ → List ℕ → LexState → Action

abbrev after_body : ℕ → Mode → ℕ → Scan → Action
after_body mark mode quote body =
    let end = closing quote body.rest in
    go mode (mark ∷ (body.written ++ end.written)) end.rest (after_mark quote)

unfoldable pub mask_quoted : Mode → ℕ → List ℕ → Action
mask_quoted mode quote cs = after_body quote mode quote (scan_quoted quote false cs)

unfoldable pub mask_regex : Mode → List ℕ → Action
mask_regex mode cs =
    let body = scan_regex false false cs in
    let end = closing slash body.rest in
    let flags = scan_flags end.rest in
    go mode (slash ∷ (body.written ++ (end.written ++ flags.written))) flags.rest (after_mark slash)

unfoldable pub mask_line_comment : Mode → LexState → List ℕ → Action
mask_line_comment mode st cs = let body = scan_line_comment cs in go mode body.written body.rest st

-- On the source behind the `/` of a `/*`.
unfoldable pub mask_block_comment : Mode → LexState → List ℕ → Action
mask_block_comment mode st cs =
    let body = scan_block_comment (rest_of cs) in
    go mode (space_char slash ∷ (space_char star ∷ body.written)) body.rest st

unfoldable pub copy_code : Mode → LexState → ℕ → List ℕ → Action
copy_code mode st c cs = go mode (c ∷ []) cs (after_code st c)

-- The part of the code loops that differs: only inside `${ … }` are braces counted.
abbrev pub copy_step : Mode → LexState → ℕ → List ℕ → Action
copy_step top st c cs = copy_code top st c cs
copy_step template st c cs = copy_code template st c cs
copy_step (brace depth) st c cs =
    if eqb c open_brace
    then copy_code (brace (depth + 1)) st c cs
    else if eqb c close_brace
    then (if eqb (depth - 1) 0
        then stop (close_brace ∷ []) cs (after_mark close_brace)
        else copy_code (brace (depth - 1)) st c cs)
    else copy_code (brace depth) st c cs

unfoldable pub code_step : Mode → LexState → ℕ → List ℕ → Action
code_step mode st c cs =
    if is_quote c
    then mask_quoted mode c cs
    else if eqb c backtick
    then enter template mode (backtick ∷ []) cs st
    else if eqb c slash && is_unit slash (head? cs)
    then mask_line_comment mode st (c ∷ cs)
    else if eqb c slash && is_unit star (head? cs)
    then mask_block_comment mode st cs
    else if eqb c slash && regex_likely st
    then mask_regex mode cs
    else copy_step mode st c cs

-- `writeMasked(i, Math.min(i + 2, source.length)); i += 2;`
abbrev pub mask_escape : LexState → ℕ → List ℕ → Action
mask_escape st c [] = go template (space_char c ∷ []) [] st
mask_escape st c (d ∷ ds) = go template (space_char c ∷ (space_char d ∷ [])) ds st

unfoldable pub template_step : LexState → ℕ → List ℕ → Action
template_step st c cs =
    if eqb c backslash
    then mask_escape st c cs
    else if eqb c backtick
    then stop (backtick ∷ []) cs (after_mark backtick)
    else if eqb c dollar && is_unit open_brace (head? cs)
    then enter (brace 1) template (dollar ∷ (open_brace ∷ [])) (rest_of cs) st
    else go template (space_char c ∷ []) cs st

abbrev pub step : Mode → LexState → ℕ → List ℕ → Action
step top st c cs = code_step top st c cs
step (brace depth) st c cs = code_step (brace depth) st c cs
step template st c cs = template_step st c cs

pub record Lexed : Type 0 where
  pub written : List ℕ
  pub rest : List ℕ
  pub state : LexState

abbrev pub prepend : List ℕ → Option Lexed → Option Lexed
prepend w none = none
prepend w (some r) = some (record { written = w ++ r.written; rest = r.rest; state = r.state })

abbrev pub and_then : Option Lexed → (Lexed → Option Lexed) → Option Lexed
and_then none f = none
and_then (some r) f = f r

-- What a loop does with its turn, where `loop` is the loops for the rest.
abbrev pub run : (Mode → LexState → List ℕ → Option Lexed) → Action → Option Lexed
run loop (stop w rest st) = some (record { written = w; rest = rest; state = st })
run loop (go next w rest st) = prepend w (loop next st rest)
run loop (enter inner next w rest st) =
    and_then (loop inner st rest) (λ r. prepend (w ++ r.written) (loop next r.state r.rest))

-- The loops on fuel: one turn takes one.
unfoldable pub lex : ℕ → Mode → LexState → List ℕ → Option Lexed
lex zero mode st cs = none
lex (suc n) mode st [] = some (record { written = []; rest = []; state = st })
lex (suc n) mode st (c ∷ cs) = run (lex n) (step mode st c cs)

abbrev pub written_of : Option Lexed → Option (List ℕ)
written_of none = none
written_of (some r) = some r.written

-- `maskNonCodeJsTs`, with one turn more than the source has units.
unfoldable pub mask_non_code_js_ts : List ℕ → Option (List ℕ)
mask_non_code_js_ts source = written_of (lex (suc (length source)) top fresh_state source)
