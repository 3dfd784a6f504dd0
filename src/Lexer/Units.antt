-- ===== src/Lexer/Units.antt =====
-- The characters of src/kernel/js-ts-lex.ts. A JavaScript string is a list of UTF-16 code units.
use Prim.Native.Char.{code}
use Prim.Native.String.{String, [], ◌∷◌}
use uads.Common.{
  ℕ, Bool, true, false, ◌||◌, ◌&&◌, List, [], ◌∷◌, Option, none, some, any, contains, eqb, leb,
  nat_eq, if◌then◌else◌,
}

abbrev pub units_of : String → List ℕ
units_of [] = []
units_of (c ∷ s) = code c ∷ units_of s

abbrev pub blank : ℕ
blank = 32

abbrev pub backslash : ℕ
backslash = 92

abbrev pub slash : ℕ
slash = 47

abbrev pub star : ℕ
star = 42

abbrev pub backtick : ℕ
backtick = 96

abbrev pub dollar : ℕ
dollar = 36

abbrev pub open_brace : ℕ
open_brace = 123

abbrev pub close_brace : ℕ
close_brace = 125

abbrev pub open_bracket : ℕ
open_bracket = 91

abbrev pub close_bracket : ℕ
close_bracket = 93

abbrev pub close_paren : ℕ
close_paren = 41

-- `ch === "'" || ch === '"'`
unfoldable pub is_quote : ℕ → Bool
is_quote c = eqb c 39 || eqb c 34

-- `ch === "\n" || ch === "\r"`
unfoldable pub is_newline : ℕ → Bool
is_newline c = eqb c 10 || eqb c 13

unfoldable pub space_char : ℕ → ℕ
space_char c = if is_newline c then c else blank

unfoldable pub in_range : ℕ → ℕ → ℕ → Bool
in_range lo hi c = leb lo c && leb c hi

-- `/[a-zA-Z]/`
unfoldable pub is_letter : ℕ → Bool
is_letter c = in_range 97 122 c || in_range 65 90 c

-- `/[A-Za-z0-9_$]/`
unfoldable pub is_ident_part : ℕ → Bool
is_ident_part c = is_letter c || (in_range 48 57 c || (eqb c 95 || eqb c dollar))

-- `/\s/`: the white space and the line ends of the language.
unfoldable pub is_space : ℕ → Bool
is_space c =
    in_range 9 13 c
    || (eqb c blank
        || (eqb c 160
            || (eqb c 5760
                || (in_range 8192 8202 c
                    || (in_range 8232 8233 c
                        || (eqb c 8239 || (eqb c 8287 || (eqb c 12288 || eqb c 65279))))))))

abbrev pub is_unit : ℕ → Option ℕ → Bool
is_unit k none = false
is_unit k (some c) = eqb c k

abbrev same_units : List ℕ → List ℕ → Bool
same_units [] [] = true
same_units [] (y ∷ ys) = false
same_units (x ∷ xs) [] = false
same_units (x ∷ xs) (y ∷ ys) = eqb x y && same_units xs ys

abbrev keywords_before_regex : List String
keywords_before_regex =
    "return" ∷ "throw" ∷ "typeof" ∷ "delete" ∷ "void" ∷ "case" ∷ "else" ∷ "in" ∷ "of" ∷ "new"
    ∷ "await" ∷ "yield" ∷ "instanceof" ∷ []

unfoldable pub is_keyword_before_regex : List ℕ → Bool
is_keyword_before_regex ident = any (λ w. same_units ident (units_of w)) keywords_before_regex

-- `"({[,;:?!~&|^=+-*%<>".includes(c)`
unfoldable pub is_operator : ℕ → Bool
is_operator c = contains (units_of "({[,;:?!~&|^=+-*%<>") c
