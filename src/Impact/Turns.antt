-- ===== src/Impact/Turns.antt =====
-- The invariant of the search of src/kernel/impact.ts between two turns.
use Prim.Native.String.{String}
use uads.Common.{
  ℕ, zero, suc, ◌+◌, ◌≤◌, ◌<◌, true, List, [], ◌∷◌, Option, some, leb, ◌==◌, string_eq, ◌≡◌, ◌⊎◌,
  inl, inr, arith, Memᴰ, All, All-map, All-both, Bool-cases,
}
use uads.Impact.Types.{GraphEdge}
use uads.Impact.Search.{Search, is_followed, expand, shifted, turn, take_turn, search_graph}
use uads.Impact.Layers.{Entry, IsKnown, IsFound, IsLayered}
use uads.Impact.Expand.{expand-Grows}

module _ (edges : List GraphEdge) (seeds : List String) (limit : ℕ) where
  -- Every followed edge at a path that was taken from the queue below the limit leads to a path
  -- known with one hop more.
  abbrev pub IsClosedAt : List Entry → List Entry → Entry → Type 0
  IsClosedAt done queue d =
      d.1 < limit
      → All
          (λ e.
            ((e.source == d.0) ≡ true
              → is_followed e ≡ true
              → IsKnown done queue e.target (d.1 + 1))
            × ((e.target == d.0) ≡ true
                → is_followed e ≡ true
                → IsKnown done queue e.source (d.1 + 1)))
          edges

  pub record IsCovered (done queue : List Entry) : Type 0 where
    pub seeded : All (λ p. IsKnown done queue p 0) seeds
    pub closed : All (IsClosedAt done queue) done

  -- Entries may move from the queue to those that are done.
  abbrev IsLater : List Entry → List Entry → List Entry → List Entry → Type 0
  IsLater done queue done' queue' =
      (y : Entry) → (Memᴰ y done ⊎ Memᴰ y queue) → (Memᴰ y done' ⊎ Memᴰ y queue')

  IsKnown-later :
      (done queue done' queue' : List Entry) (p : String) (n m : ℕ)
      → IsLater done queue done' queue'
      → n ≤ m
      → IsKnown done queue p n
      → IsKnown done' queue' p m
  IsKnown-later done queue done' queue' p n m later le (h, where_, k) =
      (h, later (p, h) where_, omega (arith, le, k))

  IsClosedAt-later :
      (done queue done' queue' : List Entry) (d : Entry)
      → IsLater done queue done' queue'
      → IsClosedAt done queue d
      → IsClosedAt done' queue' d
  IsClosedAt-later done queue done' queue' d later closed below =
      All-map edges
        (λ e k. (
          (λ s f.
              IsKnown-later done queue done' queue' e.target (d.1 + 1) (d.1 + 1) later (omega arith)
                (k.0 s f)),
          (λ s f.
              IsKnown-later done queue done' queue' e.source (d.1 + 1) (d.1 + 1) later (omega arith)
                (k.1 s f)),
        ))
        (closed below)

  -- The invariant between two turns, where `c` is the layer of the last turn.
  abbrev pub IsBetween : List Entry → ℕ → Search → Type 0
  IsBetween done c s = IsLayered seeds done c s × IsCovered done s.queue

  moved :
      (done : List Entry) (entry : Entry) (queue queue' : List Entry)
      → ((y : Entry) → Memᴰ y queue → Memᴰ y queue')
      → IsLater done (entry ∷ queue) (entry ∷ done) queue'
  moved done entry queue queue' grows y (inl m) = inl (Memᴰ.tail m)
  moved done entry queue queue' grows y (inr (Memᴰ.head e)) = inl (Memᴰ.head e)
  moved done entry queue queue' grows y (inr (Memᴰ.tail m)) = inr (grows y m)

  -- The front of the queue is taken: it is done, and its layer is the current one.
  shifted-IsLayered :
      (done : List Entry) (c : ℕ) (entry : Entry) (queue : List Entry) (s : Search)
      → IsLayered seeds done c (shifted (entry ∷ queue) s)
      → IsLayered seeds (entry ∷ done) entry.1 (shifted queue s)
  shifted-IsLayered done c entry queue s h = record {
    layers =
        All-map queue (λ y k. (k.1, omega (arith, k.0.1, h.layers.0.0)))
          (All-both (λ y. (c ≤ y.1) × (y.1 ≤ c + 1)) (λ y. entry.1 ≤ y.1) queue h.layers.1
            h.sorted.0);
    sorted = h.sorted.1;
    known = λ p v.
        IsKnown-later done (entry ∷ queue) (entry ∷ done) queue p (c + 1) (entry.1 + 1)
          (moved done entry queue queue (λ y m. m)) (omega (arith, h.layers.0.0)) (h.known p v);
    found = h.found.1;
    found_before = (h.found.0, h.found_before);
  }

  -- A turn that expands nothing, and one that does.
  IsCovered-later :
      (done : List Entry) (entry : Entry) (queue queue' : List Entry)
      → ((y : Entry) → Memᴰ y queue → Memᴰ y queue')
      → IsCovered done (entry ∷ queue)
      → IsClosedAt (entry ∷ done) queue' entry
      → IsCovered (entry ∷ done) queue'
  IsCovered-later done entry queue queue' grows h new =
      let later = moved done entry queue queue' grows in
      record {
        seeded =
            All-map seeds
              (λ p k.
                IsKnown-later done (entry ∷ queue) (entry ∷ done) queue' p 0 0 later (omega arith)
                  k)
              h.seeded;
        closed = (
          new,
          All-map done
              (λ d k. IsClosedAt-later done (entry ∷ queue) (entry ∷ done) queue' d later k)
              h.closed,
        );
      }

  turn-IsBetween :
      (done : List Entry) (c : ℕ) (entry : Entry) (queue : List Entry) (s : Search)
      → IsLayered seeds done c (shifted (entry ∷ queue) s)
      → IsCovered done (entry ∷ queue)
      → IsBetween (entry ∷ done) entry.1 (turn limit edges entry.0 entry.1 queue s)
  unfolding turn
  turn-IsBetween done c entry queue s h k =
      let layered = shifted-IsLayered done c entry queue s h in
      elim (Bool-cases (leb limit entry.1)) [
        | inl far ↦
            let beyond : limit ≤ entry.1 = ground (arith, far) in
            rw far (
              layered,
              IsCovered-later done entry queue queue (λ y m. m) k
                  (λ below. let no : ⊥ = omega (arith, beyond, below) in absurd no),
            )
        | inr near ↦
            let (after, (seen, queued), (out, into)) =
              expand-Grows seeds (entry ∷ done) entry.1 edges entry.0 (shifted queue s) layered in
            rw near (
              after,
              IsCovered-later done entry queue
                  (expand edges entry.0 entry.1 (shifted queue s)).queue queued k
                  (λ below.
                    All-map edges
                      (λ e b. (
                        (λ leaves followed. after.known e.target (b.0 leaves followed)),
                        (λ enters followed. after.known e.source (b.1 enters followed)),
                      ))
                      (All-both _ _ edges out into)),
            )
      ]

  -- What holds when the queue is empty.
  abbrev pub IsComplete : Search → Type 0
  IsComplete end =
      (done : List Entry) × IsCovered done [] × All (IsFound seeds done 0 end.items) done

  take_turn-IsComplete :
      (loop : Search → Option Search) (done : List Entry) (c : ℕ) (queue : List Entry)
      (s end : Search)
      → ((done' : List Entry) (c' : ℕ) (t : Search)
          → IsBetween done' c' t
          → loop t ≡ some end
          → IsComplete end)
      → IsLayered seeds done c (shifted queue s)
      → IsCovered done queue
      → take_turn loop limit edges queue s ≡ some end
      → IsComplete end
  take_turn-IsComplete loop done c [] s end ih h k e =
      let same : s ≡ end = cc e in rw (← same) (done, k, h.found_before)
  take_turn-IsComplete loop done c (entry ∷ queue) s end ih h k e =
      ih (entry ∷ done) entry.1 (turn limit edges entry.0 entry.1 queue s)
        (turn-IsBetween done c entry queue s h k) e

  pub search_graph-IsComplete :
      (n : ℕ) (done : List Entry) (c : ℕ) (s end : Search)
      → IsBetween done c s
      → search_graph n limit edges s ≡ some end
      → IsComplete end
  unfolding search_graph
  search_graph-IsComplete zero done c s end h e = cc e
  search_graph-IsComplete (suc n) done c s end (h, k) e =
      take_turn-IsComplete (search_graph n limit edges) done c s.queue s end
        (λ done' c' t. search_graph-IsComplete n done' c' t end) h k e
