-- ===== src/Impact/Reach.antt =====
-- What the search of src/kernel/impact.ts finds lies within its hops of a seed.
use Prim.Native.String.{String}
use uads.Common.{
  ℕ, zero, suc, ◌+◌, ◌≤◌, ◌<◌, true, List, [], ◌∷◌, ◌++◌, Option, some, map, contains, leb, ◌==◌,
  string_eq, ◌≡◌, ◌⊎◌, inl, inr, arith, Memᴰ, All, All-Memᴰ, All-map, All-filter, Bool-cases,
}
use text.Mathlib.TextEquality.{eq_iff}
use uads.Impact.Types.{GraphEdge, ImpactItem}
use uads.Impact.Items.{All-add_item}
use uads.Impact.Search.{
  Search, is_followed, along_item, against_item, discover, visit, visit_along, visit_against,
  expand, shifted, turn, take_turn, search_graph, start,
}

-- A path some number of followed edges away from a seed, each taken either way.
pub data Reach (edges : List GraphEdge) (seeds : List String) : ℕ → String → Type 0 where
  seed : {p : String} → contains seeds p ≡ true → Reach edges seeds 0 p
  along :
      {n : ℕ} {p : String} (e : GraphEdge)
      → Reach edges seeds n p
      → Memᴰ e edges
      → is_followed e ≡ true
      → e.source ≡ p
      → Reach edges seeds (n + 1) e.target
  against :
      {n : ℕ} {p : String} (e : GraphEdge)
      → Reach edges seeds n p
      → Memᴰ e edges
      → is_followed e ≡ true
      → e.target ≡ p
      → Reach edges seeds (n + 1) e.source

module _ (edges : List GraphEdge) (seeds : List String) (limit : ℕ) (found : List ImpactItem) where
  -- An item that was there before the search, or that lies within the limit.
  abbrev pub IsReached : ImpactItem → Type 0
  IsReached i = Memᴰ i found ⊎ (Reach edges seeds i.hops i.path × (i.hops ≤ limit))

  abbrev IsQueued : String × ℕ → Type 0
  IsQueued entry = Reach edges seeds entry.1 entry.0

  abbrev IsSound : Search → Type 0
  IsSound s = All IsQueued s.queue × All IsReached s.items

  All-append :
      (xs ys : List (String × ℕ)) → All IsQueued xs → All IsQueued ys → All IsQueued (xs ++ ys)
  All-append [] ys h k = k
  All-append (x ∷ xs) ys h k = (h.0, All-append xs ys h.1 k)

  visit-IsSound :
      (s : Search) (e : GraphEdge) (item : ImpactItem)
      → IsSound s
      → (is_followed e ≡ true → Reach edges seeds item.hops item.path)
      → item.hops ≤ limit
      → IsSound (visit s e item)
  unfolding visit discover
  visit-IsSound s e item (q, i) reached within = elim (Bool-cases (is_followed e)) [
    | inr skipped ↦ rw skipped (q, i)
    | inl followed ↦ rw followed (elim (Bool-cases (contains s.visited item.path)) [
      | inl seen ↦ rw seen (q, i)
      | inr fresh ↦
          let r = reached followed in
          rw fresh (
            All-append s.queue ((item.path, item.hops) ∷ []) q (r, tt),
            All-add_item IsReached item s.items (inr (r, within)) i,
          )
    ])
  ]

  visit_along-IsSound :
      (hops : ℕ) (path : String) (s : Search) (es : List GraphEdge)
      → Reach edges seeds hops path
      → hops < limit
      → All (λ e. Memᴰ e edges × ((e.source == path) ≡ true)) es
      → IsSound s
      → IsSound (visit_along hops s es)
  unfolding visit_along
  visit_along-IsSound hops path s [] r h es sound = sound
  visit_along-IsSound hops path s (e ∷ es) r h ((member, leaves), rest) sound =
      visit_along-IsSound hops path (visit s e (along_item e (hops + 1))) es r h rest (
        visit-IsSound s e (along_item e (hops + 1)) sound
          (λ followed. Reach.along e r member followed ((eq_iff e.source path).0 leaves))
          (omega (arith, h)))

  visit_against-IsSound :
      (hops : ℕ) (path : String) (s : Search) (es : List GraphEdge)
      → Reach edges seeds hops path
      → hops < limit
      → All (λ e. Memᴰ e edges × ((e.target == path) ≡ true)) es
      → IsSound s
      → IsSound (visit_against hops s es)
  unfolding visit_against
  visit_against-IsSound hops path s [] r h es sound = sound
  visit_against-IsSound hops path s (e ∷ es) r h ((member, enters), rest) sound =
      visit_against-IsSound hops path (visit s e (against_item e (hops + 1))) es r h rest (
        visit-IsSound s e (against_item e (hops + 1)) sound
          (λ followed. Reach.against e r member followed ((eq_iff e.target path).0 enters))
          (omega (arith, h)))

  turn-IsSound :
      (path : String) (hops : ℕ) (queue : List (String × ℕ)) (s : Search)
      → Reach edges seeds hops path
      → All IsQueued queue
      → All IsReached s.items
      → IsSound (turn limit edges path hops queue s)
  unfolding turn expand
  turn-IsSound path hops queue s r q i = elim (Bool-cases (leb limit hops)) [
    | inl far ↦ rw far (q, i)
    | inr near ↦
        let h : hops < limit = ground (arith, near) in
        let leaving =
          All-filter (λ e. Memᴰ e edges) (λ (e : GraphEdge). e.source == path) edges
            (All-Memᴰ edges) in
        let entering =
          All-filter (λ e. Memᴰ e edges) (λ (e : GraphEdge). e.target == path) edges
            (All-Memᴰ edges) in
        rw near (
          visit_against-IsSound hops path _ _ r h entering
            (visit_along-IsSound hops path (shifted queue s) _ r h leaving (q, i)))
  ]

  take_turn-IsSound :
      (loop : Search → Option Search) (queue : List (String × ℕ)) (s end : Search)
      → ((t : Search) → IsSound t → loop t ≡ some end → All IsReached end.items)
      → IsSound (shifted queue s)
      → take_turn loop limit edges queue s ≡ some end
      → All IsReached end.items
  take_turn-IsSound loop [] s end ih (q, i) e = let same : s ≡ end = cc e in rw (← same) i
  take_turn-IsSound loop (entry ∷ queue) s end ih (q, i) e =
      ih (turn limit edges entry.0 entry.1 queue s) (turn-IsSound entry.0 entry.1 queue s q.0 q.1 i)
        e

  search_graph-IsSound :
      (n : ℕ) (s end : Search)
      → IsSound s
      → search_graph n limit edges s ≡ some end
      → All IsReached end.items
  unfolding search_graph
  search_graph-IsSound zero s end sound e = cc e
  search_graph-IsSound (suc n) s end sound e =
      take_turn-IsSound (search_graph n limit edges) s.queue s end
        (λ t h. search_graph-IsSound n t end h) sound e

seeds-IsQueued :
    (edges : List GraphEdge) (seeds part : List String) (limit : ℕ) (found : List ImpactItem)
    → All (λ p. contains seeds p ≡ true) part
    → All (IsQueued edges seeds limit found) (map (λ p. (p, 0)) part)
seeds-IsQueued edges seeds [] limit found h = tt
seeds-IsQueued edges seeds (p ∷ part) limit found h =
    (Reach.seed h.0, seeds-IsQueued edges seeds part limit found h.1)

contains_more :
    (seeds : List String) (s : String)
    → All (λ p. contains seeds p ≡ true) seeds
    → All (λ p. contains (s ∷ seeds) p ≡ true) seeds
unfolding contains
contains_more seeds s h = All-map seeds (λ p e. ground (arith, e)) h

pub contains_self : (seeds : List String) → All (λ p. contains seeds p ≡ true) seeds
unfolding contains
contains_self [] = tt
contains_self (s ∷ seeds) =
    (ground (arith, eq_iff s s), contains_more seeds s (contains_self seeds))

-- Every item of the result was there before the search, or lies as many followed edges away from
-- a seed as its hops say, and no more than the limit.
pub search_graph_sound :
    (n limit : ℕ) (edges : List GraphEdge) (seeds : List String) (found : List ImpactItem)
    (end : Search)
    → search_graph n limit edges (start seeds found) ≡ some end
    → All (IsReached edges seeds limit found) end.items
unfolding start
search_graph_sound n limit edges seeds found end e =
    search_graph-IsSound edges seeds limit found n (start seeds found) end
      (
        seeds-IsQueued edges seeds seeds limit found (contains_self seeds),
        All-map found (λ i m. inl m) (All-Memᴰ found),
      )
      e
