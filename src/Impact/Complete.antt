-- ===== src/Impact/Complete.antt =====
-- The search of src/kernel/impact.ts finds all that lies within its limit.
use Prim.Native.String.{String}
use uads.Common.{
  Bool-cases, ℕ, zero, ◌+◌, ◌≤◌, ◌<◌, true, List, [], ◌∷◌, some, map, contains, any, ◌==◌,
  string_eq, ◌≡◌, ◌⊎◌, inl, inr, refl, arith, Memᴰ, All, All-map, All_of_Memᴰ,
}
use text.Mathlib.TextEquality.{eq_iff}
use uads.Common.Find.{All-of_contains}
use uads.Impact.Types.{GraphEdge, ImpactItem}
use uads.Impact.Search.{Search, is_followed, search_graph, start}
use uads.Impact.Layers.{Entry, IsKnown, IsSortedQueue, IsFound, IsLayered, has_item}
use uads.Impact.Turns.{IsCovered, IsClosedAt, search_graph-IsComplete}
use uads.Impact.Reach.{Reach, contains_self}

abbrev queued : List String → List Entry
queued paths = map (λ p. (p, 0)) paths

All-queued {ℓ} :
    (P : Entry → Type ℓ) (paths : List String) → All (λ p. P (p, 0)) paths → All P (queued paths)
All-queued P [] h = tt
All-queued P (p ∷ paths) h = (h.0, All-queued P paths h.1)

every : {P : String → Type 0} (paths : List String) → ((p : String) → P p) → All P paths
every [] f = tt
every (p ∷ paths) f = (f p, every paths f)

queued-IsSortedQueue : (paths : List String) → IsSortedQueue (queued paths)
queued-IsSortedQueue [] = tt
queued-IsSortedQueue (p ∷ paths) = (
  All-queued (λ y. zero ≤ y.1) paths (every {P = λ q. zero ≤ zero} paths (λ q. omega arith)),
  queued-IsSortedQueue paths,
)

Memᴰ-queued :
    (paths : List String) (p : String) → contains paths p ≡ true → Memᴰ (p, 0) (queued paths)
unfolding contains
Memᴰ-queued [] p h = cc h
Memᴰ-queued (q ∷ paths) p h = elim (Bool-cases (q == p)) [
  | inl same ↦ let equal : q ≡ p = (eq_iff q p).0 same in rw equal (Memᴰ.head refl)
  | inr other ↦ Memᴰ.tail (Memᴰ-queued paths p (rw other at h))
]

start-IsLayered :
    (seeds : List String) (found : List ImpactItem) → IsLayered seeds [] 0 (start seeds found)
unfolding start
start-IsLayered seeds found = record {
  layers =
      All-queued _ seeds
        (every {P = λ p. (zero ≤ zero) × (zero ≤ 0 + 1)} seeds (λ p. (omega arith, omega arith)));
  sorted = queued-IsSortedQueue seeds;
  known = λ p v. (0, inr (Memᴰ-queued seeds p v), omega arith);
  found = All-queued _ seeds (All-map seeds (λ p k. inl k) (contains_self seeds));
  found_before = tt;
}

start-IsCovered :
    (edges : List GraphEdge) (seeds : List String) (limit : ℕ)
    → IsCovered edges seeds limit [] (queued seeds)
start-IsCovered edges seeds limit = record {
  seeded =
      All-map seeds (λ p k. (0, inr (Memᴰ-queued seeds p k), omega arith)) (contains_self seeds);
  closed = tt;
}

module _ (edges : List GraphEdge) (seeds : List String) (limit : ℕ) (done : List Entry)
    (covered : IsCovered edges seeds limit done []) where
  one_more :
      (n : ℕ) (p : String) (e : GraphEdge)
      → IsKnown done [] p n
      → Memᴰ e edges
      → is_followed e ≡ true
      → n < limit
      → (e.source ≡ p → IsKnown done [] e.target (n + 1))
        × (e.target ≡ p → IsKnown done [] e.source (n + 1))
  one_more n p e (h, inr m, le) member followed below = elim m [ ]
  one_more n p e (h, inl m, le) member followed below =
      let closed = All_of_Memᴰ (IsClosedAt edges seeds limit done []) covered.closed m in
      let (out, into) = All_of_Memᴰ _ (closed (omega (arith, le, below))) member in
      (
        (λ s.
            let (k, w, b) = out ((eq_iff e.source p).1 s) followed in (k, w, omega (arith, b, le))),
        (λ t.
            let (k, w, b) = into ((eq_iff e.target p).1 t) followed in
            (k, w, omega (arith, b, le))),
      )

  reached-IsKnown : {n : ℕ} {p : String} → Reach edges seeds n p → n ≤ limit → IsKnown done [] p n
  reached-IsKnown (Reach.seed {p} k) below =
      All-of_contains (λ q. IsKnown done [] q 0) seeds p covered.seeded k
  reached-IsKnown (Reach.along {n} {p} e r m f s) below =
      (one_more n p e (reached-IsKnown r (omega (arith, below))) m f (omega (arith, below))).0 s
  reached-IsKnown (Reach.against {n} {p} e r m f t) below =
      (one_more n p e (reached-IsKnown r (omega (arith, below))) m f (omega (arith, below))).1 t

has_item_mono :
    (p : String) (n m : ℕ) (items : List ImpactItem)
    → n ≤ m
    → has_item p n items ≡ true
    → has_item p m items ≡ true
unfolding has_item any
has_item_mono p n m [] le h = cc h
has_item_mono p n m (i ∷ items) le h = ground (arith, le, h, has_item_mono p n m items le)

found_known :
    (seeds : List String) (items : List ImpactItem) (done : List Entry) (p : String) (n : ℕ)
    → All (IsFound seeds done 0 items) done
    → IsKnown done [] p n
    → (contains seeds p ≡ true) ⊎ (has_item p n items ≡ true)
found_known seeds items done p n all (h, inr m, le) = elim m [ ]
found_known seeds items done p n all (h, inl m, le) =
    elim (All_of_Memᴰ (IsFound seeds done 0 items) all m) [
      | inl s ↦ inl s
      | inr i ↦ inr (has_item_mono p h n items le i)
    ]

-- Every path that lies some number of followed edges away from a seed, no more than the limit, is
-- a seed or has an item in the result, with at most so many hops.
pub search_graph_complete :
    (n limit : ℕ) (edges : List GraphEdge) (seeds : List String) (found : List ImpactItem)
    (end : Search) (hops : ℕ) (path : String)
    → search_graph n limit edges (start seeds found) ≡ some end
    → Reach edges seeds hops path
    → hops ≤ limit
    → (contains seeds path ≡ true) ⊎ (has_item path hops end.items ≡ true)
unfolding start
search_graph_complete n limit edges seeds found end hops path e r below =
    let (done, covered, all) =
      search_graph-IsComplete edges seeds limit n [] 0 (start seeds found) end
        (start-IsLayered seeds found, start-IsCovered edges seeds limit) e in
    found_known seeds end.items done path hops all
      (reached-IsKnown edges seeds limit done covered r below)
