-- ===== src/Kernel/Ids.antt =====
-- src/kernel/ids.ts: the text helpers of the classifiers.
use Prim.Native.String.{String}
use uads.Common.{Bool, List, not, filter, dedupe, ◌==◌, string_eq, any, to_lower_case, includes}

-- `values.filter(Boolean)` drops the empty texts, and the set keeps the first of each.
unfoldable pub unique : List String → List String
unique values = dedupe (filter (λ v. not (v == "")) values)

unfoldable pub includes_any : String → List String → Bool
includes_any haystack needles =
    let text = to_lower_case haystack in
    any (λ needle. includes text (to_lower_case needle)) needles
