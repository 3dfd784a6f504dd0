-- ===== src/Impact/Expand.antt =====
-- What the expansion of one path keeps and adds, in the search of src/kernel/impact.ts.
use Prim.Native.String.{String}
use uads.Common.{
  ℕ, ◌+◌, true, List, [], ◌∷◌, filter, contains, ◌==◌, string_eq, ◌≡◌, inl, inr, refl, Memᴰ, All,
  All-map, All-of_filter, Bool-cases,
}
use uads.Impact.Types.{GraphEdge, ImpactItem}
use uads.Impact.Search.{
  Search, is_followed, along_item, against_item, discover, visit, visit_along, visit_against,
  expand,
}
use uads.Impact.Layers.{Entry, IsLayered, Memᴰ-snoc_old, visit-IsLayered, visit-visited}

-- From one state to a later one of the same turn: nothing visited or queued is lost.
abbrev pub Grows : Search → Search → Type 0
Grows s t =
    ((p : String) → contains s.visited p ≡ true → contains t.visited p ≡ true)
    × ((y : Entry) → Memᴰ y s.queue → Memᴰ y t.queue)

visit-Grows : (s : Search) (e : GraphEdge) (item : ImpactItem) → Grows s (visit s e item)
unfolding visit discover
visit-Grows s e item = (
  (λ p. (visit-visited s e item p).1),
  (λ y m. elim (Bool-cases (is_followed e)) [
    | inr skipped ↦ rw skipped m
    | inl followed ↦ rw followed (elim (Bool-cases (contains s.visited item.path)) [
      | inl seen ↦ rw seen m
      | inr fresh ↦ rw fresh (Memᴰ-snoc_old s.queue (item.path, item.hops) y m)
    ])
  ]),
)

module _ (seeds : List String) (done : List Entry) (c : ℕ) where
  visit_along-Grows :
      (s : Search) (es : List GraphEdge)
      → IsLayered seeds done c s
      → IsLayered seeds done c (visit_along c s es)
        × Grows s (visit_along c s es)
        × All (λ e. is_followed e ≡ true → contains (visit_along c s es).visited e.target ≡ true) es
  unfolding visit_along
  visit_along-Grows s [] h = (h, ((λ p v. v), (λ y m. m)), tt)
  visit_along-Grows s (e ∷ es) h =
      let item : ImpactItem = along_item e (c + 1) in
      let (layered, (seen, queued), all) =
        visit_along-Grows (visit s e item) es (visit-IsLayered seeds done c s e item refl h) in
      let (v, q) = visit-Grows s e item in
      (
        layered,
        ((λ p k. seen p (v p k)), (λ y m. queued y (q y m))),
        ((λ followed. seen e.target ((visit-visited s e item e.target).0 followed)), all),
      )

  visit_against-Grows :
      (s : Search) (es : List GraphEdge)
      → IsLayered seeds done c s
      → IsLayered seeds done c (visit_against c s es)
        × Grows s (visit_against c s es)
        × All
            (λ e. is_followed e ≡ true → contains (visit_against c s es).visited e.source ≡ true)
            es
  unfolding visit_against
  visit_against-Grows s [] h = (h, ((λ p v. v), (λ y m. m)), tt)
  visit_against-Grows s (e ∷ es) h =
      let item : ImpactItem = against_item e (c + 1) in
      let (layered, (seen, queued), all) =
        visit_against-Grows (visit s e item) es (visit-IsLayered seeds done c s e item refl h) in
      let (v, q) = visit-Grows s e item in
      (
        layered,
        ((λ p k. seen p (v p k)), (λ y m. queued y (q y m))),
        ((λ followed. seen e.source ((visit-visited s e item e.source).0 followed)), all),
      )

  -- Both ends of the followed edges at a path that was expanded are visited.
  abbrev pub IsExpanded : List GraphEdge → String → Search → Type 0
  IsExpanded edges path t =
      All
        (λ e. (e.source == path) ≡ true → is_followed e ≡ true → contains t.visited e.target ≡ true)
        edges
      × All
          (λ e.
            (e.target == path) ≡ true → is_followed e ≡ true → contains t.visited e.source ≡ true)
          edges

  pub expand-Grows :
      (edges : List GraphEdge) (path : String) (s : Search)
      → IsLayered seeds done c s
      → IsLayered seeds done c (expand edges path c s)
        × Grows s (expand edges path c s)
        × IsExpanded edges path (expand edges path c s)
  unfolding expand
  expand-Grows edges path s h =
      let leaving : List GraphEdge = filter (λ (e : GraphEdge). e.source == path) edges in
      let entering : List GraphEdge = filter (λ (e : GraphEdge). e.target == path) edges in
      let (layered, (v, q), out) = visit_along-Grows s leaving h in
      let (layered2, (v2, q2), into) =
        visit_against-Grows (visit_along c s leaving) entering layered in
      (
        layered2,
        ((λ p k. v2 p (v p k)), (λ y m. q2 y (q y m))),
        (
          All-of_filter _ (λ (e : GraphEdge). e.source == path) edges
              (All-map leaving (λ e k followed. v2 e.target (k followed)) out),
          All-of_filter _ (λ (e : GraphEdge). e.target == path) edges into,
        ),
      )
