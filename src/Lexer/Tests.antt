-- ===== src/Lexer/Tests.antt =====
-- The masker of src/kernel/js-ts-lex.ts on small sources, and its theorems at them.
use uads.Common.{ℕ, List, [], ◌∷◌, ◌++◌, some, ◌+◌, ◌≡◌, ◌≤◌, refl, filter, length, any, contains}
use uads.Lexer.Units.{
  units_of, is_newline, is_quote, space_char, is_letter, in_range, is_ident_part, is_space,
  is_keyword_before_regex, is_operator, backslash,
}
use uads.Lexer.Scan.{scan_line_comment, scan_block_comment, scan_quoted, scan_regex, scan_flags}
use uads.Lexer.Machine.{
  fresh_state, after_code, regex_likely, mask_quoted, mask_regex, mask_line_comment,
  mask_block_comment, copy_code, code_step, template_step, lex, mask_non_code_js_ts,
}
use uads.Lexer.Covers.{Covers}
use uads.Lexer.Alignment.{mask_non_code_js_ts_aligned, mask_non_code_js_ts_lines}
use uads.Lexer.Words.{mask_non_code_js_ts_overrun, words_run_together, after_all}

-- A string and a comment are blanked, the code between them stays.
string_and_comment : mask_non_code_js_ts (units_of "f('ab') // c") ≡ some (units_of "f('  ')     ")
unfolding mask_non_code_js_ts lex code_step template_step mask_quoted mask_regex mask_line_comment
    mask_block_comment copy_code scan_line_comment scan_block_comment scan_quoted scan_regex
    scan_flags after_code regex_likely is_operator is_keyword_before_regex is_space is_ident_part
    is_letter in_range space_char is_quote is_newline any contains
string_and_comment = refl

-- The code within a template stays, its text is blanked.
template_and_code :
    mask_non_code_js_ts (units_of "`a${ {b} }c`;/x/g") ≡ some (units_of "` ${ {b} } `;/ /g")
unfolding mask_non_code_js_ts lex code_step template_step mask_quoted mask_regex mask_line_comment
    mask_block_comment copy_code scan_line_comment scan_block_comment scan_quoted scan_regex
    scan_flags after_code regex_likely is_operator is_keyword_before_regex is_space is_ident_part
    is_letter in_range space_char is_quote is_newline any contains
template_and_code = refl

abbrev sample : List ℕ
sample = units_of "f('ab') // c"

mask_non_code_js_ts_aligned_example :
    (out : List ℕ) × (mask_non_code_js_ts sample ≡ some out) × Covers out sample []
mask_non_code_js_ts_aligned_example = mask_non_code_js_ts_aligned sample

mask_non_code_js_ts_lines_example :
    (out : List ℕ) × (mask_non_code_js_ts sample ≡ some out)
    × (filter is_newline out ≡ filter is_newline sample)
    × (length sample ≤ length out)
    × (length out ≤ length sample + 1)
mask_non_code_js_ts_lines_example = mask_non_code_js_ts_lines sample

mask_non_code_js_ts_overrun_example :
    (out : List ℕ) × (mask_non_code_js_ts (34 ∷ ((97 ∷ []) ++ (backslash ∷ []))) ≡ some out)
    × (length out ≡ length (34 ∷ ((97 ∷ []) ++ (backslash ∷ []))) + 1)
unfolding is_newline
mask_non_code_js_ts_overrun_example = mask_non_code_js_ts_overrun (97 ∷ []) ((refl, refl, refl), tt)

words_run_together_example :
    (after_all fresh_state (units_of "go" ++ (units_of " " ++ units_of "up"))).last_ident
    ≡ [] ++ (units_of "go" ++ units_of "up")
unfolding is_ident_part is_letter in_range is_space
words_run_together_example =
    words_run_together fresh_state (units_of "go") (units_of " ") (units_of "up")
      ((refl, refl), ((refl, refl), tt)) (refl, tt) ((refl, refl), ((refl, refl), tt))
