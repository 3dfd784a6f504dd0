-- ===== src/Common/Nullable.antt =====
-- `===` of values that may be null or missing, of texts and lists of texts, and `xs.startsWith`.
use Prim.Native.String.{String}
use text.Mathlib.Text
use uads.Common.{
  ◌==◌, string_eq, Bool, true, false, ◌&&◌, not, List, [], ◌∷◌, Option, none, some, ◌≡◌, ◌↔◌, arith,
}

-- `Boolean(text)` of a text that may be missing or null.
abbrev pub has_text : Option String → Bool
has_text none = false
has_text (some s) = not (s == "")

-- `a === b` of texts that may both be null.
abbrev pub same_nullable : Option String → Option String → Bool
same_nullable none none = true
same_nullable none (some b) = false
same_nullable (some a) none = false
same_nullable (some a) (some b) = a == b

-- `text ?? other`
abbrev pub or_text : Option String → String → String
or_text none other = other
or_text (some s) other = s

-- A text that may be null, put through a function of texts.
abbrev pub map_text : (String → String) → Option String → Option String
map_text f none = none
map_text f (some s) = some (f s)

-- The equality of two lists of texts, as their JSON texts decide it.
unfoldable pub same_list : List String → List String → Bool
same_list [] [] = true
same_list [] (y ∷ ys) = false
same_list (x ∷ xs) [] = false
same_list (x ∷ xs) (y ∷ ys) = x == y && same_list xs ys

abbrev pub starts_with : String → String → Bool
starts_with text prefix = Text.starts_with text prefix

pub same_nullable_iff : (a b : Option String) → (same_nullable a b ≡ true) ↔ (a ≡ b)
same_nullable_iff none none = ground arith
same_nullable_iff none (some b) = ground arith
same_nullable_iff (some a) none = ground arith
same_nullable_iff (some a) (some b) =
    let (sound, complete) = string_eq.beq_iff a b in
    ((λ h. let e : a ≡ b = sound h in cc e), (λ h. let e : a ≡ b = cc h in complete e))

pub same_list_iff : (xs ys : List String) → (same_list xs ys ≡ true) ↔ (xs ≡ ys)
unfolding same_list
same_list_iff [] [] = ground arith
same_list_iff [] (y ∷ ys) = ground arith
same_list_iff (x ∷ xs) [] = ground arith
same_list_iff (x ∷ xs) (y ∷ ys) = ground (arith, string_eq.beq_iff x y, same_list_iff xs ys)
