-- ===== src/Impact/Ends.antt =====
-- The search of src/kernel/impact.ts ends: each path is queued once.
use Prim.Native.String.{String}
use uads.Common.{
  ℕ, zero, suc, ◌+◌, ◌≤◌, ◌<◌, Bool, true, false, not, List, [], ◌∷◌, ◌++◌, Option, some, map,
  filter, contains, contains-append, ◌==◌, string_eq, ◌≡◌, inl, inr, refl, sym, arith, All,
  All-both, All-map, All-filter, Bool-cases, length, length-append,
}
use text.Mathlib.TextEquality.{eq_iff}
use uads.Impact.Types.{GraphEdge, ImpactItem}
use uads.Impact.Search.{
  Search, along_item, against_item, discover, visit, visit_along, visit_against, expand, shifted,
  turn, take_turn, search_graph, start,
}

-- How many of the paths are not visited, each counted as often as it stands.
unfoldable unvisited : List String → List String → ℕ
unvisited visited paths = length (filter (λ p. not (contains visited p)) paths)

unvisited_cons :
    (visited : List String) (p : String) (paths : List String)
    → unvisited (p ∷ visited) paths ≤ unvisited visited paths
unfolding unvisited filter contains
unvisited_cons visited p [] = omega arith
unvisited_cons visited p (x ∷ xs) = ground (arith, unvisited_cons visited p xs)

-- A path that is visited for the first time leaves fewer to visit.
unvisited_drop :
    (visited : List String) (p : String) (paths : List String)
    → contains paths p ≡ true
    → contains visited p ≡ false
    → unvisited (p ∷ visited) paths < unvisited visited paths
unfolding unvisited filter contains
unvisited_drop visited p [] h k = cc h
unvisited_drop visited p (x ∷ xs) h k = elim (Bool-cases (x == p)) [
  | inl same ↦
      let equal : x ≡ p = (eq_iff x p).0 same in
      let again : (p == x) ≡ true = (eq_iff p x).1 (sym equal) in
      let new : contains visited x ≡ false = rw equal k in
      ground (arith, again, new, unvisited_cons visited p xs)
  | inr other ↦ ground (arith, other, h, unvisited_drop visited p xs, k)
]

abbrev pub endpoints : List GraphEdge → List String
endpoints edges = map (λ (e : GraphEdge). e.source) edges ++ map (λ (e : GraphEdge). e.target) edges

module _ (paths : List String) where
  -- What is queued and what is not visited: the turns that may still come.
  unfoldable weight : Search → ℕ
  weight s = length s.queue + unvisited s.visited paths

  abbrev IsAmong : GraphEdge → Type 0
  IsAmong e = (contains paths e.source ≡ true) × (contains paths e.target ≡ true)

  visit-weight :
      (s : Search) (e : GraphEdge) (item : ImpactItem)
      → contains paths item.path ≡ true
      → weight (visit s e item) ≤ weight s
  unfolding visit discover weight
  visit-weight s e item h = ground (
    arith,
    unvisited_drop s.visited item.path paths h,
    length-append s.queue ((item.path, item.hops) ∷ []),
  )

  visit_along-weight :
      (hops : ℕ) (s : Search) (es : List GraphEdge)
      → All IsAmong es
      → weight (visit_along hops s es) ≤ weight s
  unfolding visit_along
  visit_along-weight hops s [] h = omega arith
  visit_along-weight hops s (e ∷ es) h = omega (
    arith,
    visit_along-weight hops (visit s e (along_item e (hops + 1))) es h.1,
    visit-weight s e (along_item e (hops + 1)) h.0.1,
  )

  visit_against-weight :
      (hops : ℕ) (s : Search) (es : List GraphEdge)
      → All IsAmong es
      → weight (visit_against hops s es) ≤ weight s
  unfolding visit_against
  visit_against-weight hops s [] h = omega arith
  visit_against-weight hops s (e ∷ es) h = omega (
    arith,
    visit_against-weight hops (visit s e (against_item e (hops + 1))) es h.1,
    visit-weight s e (against_item e (hops + 1)) h.0.0,
  )

  IsAmong-filtered :
      (p : GraphEdge → Bool) (es : List GraphEdge) → All IsAmong es → All IsAmong (filter p es)
  IsAmong-filtered p es h = All-map (filter p es) (λ e k. k.0) (All-filter IsAmong p es h)

  turn-weight :
      (limit : ℕ) (edges : List GraphEdge) (path : String) (hops : ℕ) (queue : List (String × ℕ))
      (s : Search)
      → All IsAmong edges
      → weight (turn limit edges path hops queue s) ≤ weight (shifted queue s)
  unfolding turn expand
  turn-weight limit edges path hops queue s h = ground (
    arith,
    visit_along-weight hops (shifted queue s) (filter (λ (e : GraphEdge). e.source == path) edges)
        (IsAmong-filtered (λ (e : GraphEdge). e.source == path) edges h),
    visit_against-weight hops
        (visit_along hops (shifted queue s) (filter (λ (e : GraphEdge). e.source == path) edges))
        (filter (λ (e : GraphEdge). e.target == path) edges)
        (IsAmong-filtered (λ (e : GraphEdge). e.target == path) edges h),
  )

  abbrev Ends : Option Search → Type 0
  Ends o = (end : Search) × (o ≡ some end)

  take_turn-Ends :
      (loop : Search → Option Search) (n limit : ℕ) (edges : List GraphEdge)
      (queue : List (String × ℕ)) (s : Search)
      → ((t : Search) → weight t < n → Ends (loop t))
      → All IsAmong edges
      → weight (shifted queue s) < suc n
      → Ends (take_turn loop limit edges queue s)
  unfolding weight
  take_turn-Ends loop n limit edges [] s ih h w = (s, refl)
  take_turn-Ends loop n limit edges (entry ∷ queue) s ih h w =
      ih (turn limit edges entry.0 entry.1 queue s)
        (omega (arith, w, turn-weight limit edges entry.0 entry.1 queue s h))

  search_graph-Ends :
      (n limit : ℕ) (edges : List GraphEdge) (s : Search)
      → All IsAmong edges
      → weight s < n
      → Ends (search_graph n limit edges s)
  unfolding search_graph
  search_graph-Ends zero limit edges s h w = let no : ⊥ = omega (arith, w) in absurd no
  search_graph-Ends (suc n) limit edges s h w =
      take_turn-Ends (search_graph n limit edges) n limit edges s.queue s
        (λ t k. search_graph-Ends n limit edges t h k) h w

contains-map :
    (f : GraphEdge → String) (es : List GraphEdge) → All (λ e. contains (map f es) (f e) ≡ true) es
unfolding contains
contains-map f [] = tt
contains-map f (e ∷ es) =
    (ground (arith, eq_iff (f e) (f e)), All-map es (λ x k. ground (arith, k)) (contains-map f es))

endpoints-IsAmong : (edges : List GraphEdge) → All (IsAmong (endpoints edges)) edges
endpoints-IsAmong edges =
    let sources = map (λ (e : GraphEdge). e.source) edges in
    let targets = map (λ (e : GraphEdge). e.target) edges in
    All-map edges
      (λ e k. (
        ground (arith, k.0, contains-append sources targets e.source),
        ground (arith, k.1, contains-append sources targets e.target),
      ))
      (All-both (λ e. contains sources e.source ≡ true) (λ e. contains targets e.target ≡ true)
        edges (contains-map (λ (e : GraphEdge). e.source) edges)
        (contains-map (λ (e : GraphEdge). e.target) edges))

length-map {ℓ κ} :
    {A : Type ℓ} {B : Type κ} (f : A → B) (xs : List A) → length (map f xs) ≡ length xs
length-map f [] = refl
length-map f (x ∷ xs) = omega (arith, length-map f xs)

unvisited-le : (visited paths : List String) → unvisited visited paths ≤ length paths
unfolding unvisited filter
unvisited-le visited [] = omega arith
unvisited-le visited (x ∷ xs) = ground (arith, unvisited-le visited xs)

-- As many turns as there are seeds and ends of edges, and one to see the empty queue.
abbrev pub search_fuel : List GraphEdge → List String → ℕ
search_fuel edges seeds = suc (length seeds + (length edges + length edges))

-- The search ends for every graph, cycles and repeated edges included: as many turns as there are
-- seeds and ends of edges empty the queue.
pub search_graph_ends :
    (limit : ℕ) (edges : List GraphEdge) (seeds : List String) (found : List ImpactItem)
    → (end : Search) × (search_graph (search_fuel edges seeds) limit edges (start seeds found)
        ≡ some end)
unfolding start weight
search_graph_ends limit edges seeds found =
    search_graph-Ends (endpoints edges) (search_fuel edges seeds) limit edges (start seeds found)
      (endpoints-IsAmong edges)
      (omega (
        arith,
        length-map {B = String × ℕ} (λ (s : String). (s, 0)) seeds,
        unvisited-le seeds (endpoints edges),
        length-append (map (λ (e : GraphEdge). e.source) edges)
            (map (λ (e : GraphEdge). e.target) edges),
        length-map (λ (e : GraphEdge). e.source) edges,
        length-map (λ (e : GraphEdge). e.target) edges,
      ))
