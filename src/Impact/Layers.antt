-- ===== src/Impact/Layers.antt =====
-- The queue of the search of src/kernel/impact.ts goes by layers: what one turn keeps of that.
use Prim.Native.String.{String}
use uads.Common.{
  ℕ, ◌+◌, ◌≤◌, Bool, true, ◌&&◌, List, [], ◌∷◌, ◌++◌, any, contains, leb, ◌==◌, string_eq, ◌≡◌, ◌⊎◌,
  inl, inr, refl, arith, Memᴰ, All, All-map, Bool-cases,
}
use text.Mathlib.TextEquality.{eq_iff}
use uads.Impact.Types.{GraphEdge, ImpactItem}
use uads.Impact.Items.{add_item}
use uads.Impact.Search.{Search, is_followed, discover, visit}

abbrev pub Entry : Type 0
Entry = String × ℕ

-- A path that was queued with at most so many hops, and taken from the queue or not yet.
abbrev pub IsKnown : List Entry → List Entry → String → ℕ → Type 0
IsKnown done queue p n = (h : ℕ) × (Memᴰ (p, h) done ⊎ Memᴰ (p, h) queue) × (h ≤ n)

abbrev pub IsSortedQueue : List Entry → Type 0
IsSortedQueue [] = Unit
IsSortedQueue (x ∷ xs) = All (λ y. x.1 ≤ y.1) xs × IsSortedQueue xs

-- An item of a path with at most so many hops.
unfoldable pub has_item : String → ℕ → List ImpactItem → Bool
has_item p n items = any (λ (i : ImpactItem). i.path == p && leb i.hops n) items

pub has_item-add_item :
    (p : String) (n : ℕ) (item : ImpactItem) (items : List ImpactItem)
    → has_item p n items ≡ true
    → has_item p n (add_item item items) ≡ true
unfolding has_item add_item any
has_item-add_item p n item [] h = cc h
has_item-add_item p n item (i ∷ items) h = ground (
  arith,
  h,
  has_item-add_item p n item items,
  eq_iff i.path item.path,
  eq_iff i.path p,
  eq_iff item.path p,
)

pub has_item_added :
    (item : ImpactItem) (items : List ImpactItem)
    → has_item item.path item.hops (add_item item items) ≡ true
unfolding has_item add_item any
has_item_added item [] = ground (arith, eq_iff item.path item.path)
has_item_added item (i ∷ items) =
    ground (arith, has_item_added item items, eq_iff i.path item.path, eq_iff item.path item.path)

module _ {ℓ} (P : Entry → Type ℓ) where
  pub All-snoc : (xs : List Entry) (x : Entry) → All P xs → P x → All P (xs ++ (x ∷ []))
  All-snoc [] x h p = (p, tt)
  All-snoc (y ∷ xs) x h p = (h.0, All-snoc xs x h.1 p)

pub IsSortedQueue-snoc :
    (xs : List Entry) (x : Entry)
    → IsSortedQueue xs
    → All (λ y. y.1 ≤ x.1) xs
    → IsSortedQueue (xs ++ (x ∷ []))
IsSortedQueue-snoc [] x h k = (tt, tt)
IsSortedQueue-snoc (y ∷ xs) x h k =
    (All-snoc (λ z. y.1 ≤ z.1) xs x h.0 k.0, IsSortedQueue-snoc xs x h.1 k.1)

pub Memᴰ-snoc_old : (xs : List Entry) (x y : Entry) → Memᴰ y xs → Memᴰ y (xs ++ (x ∷ []))
Memᴰ-snoc_old [] x y m = elim m [ ]
Memᴰ-snoc_old (z ∷ xs) x y (Memᴰ.head e) = Memᴰ.head e
Memᴰ-snoc_old (z ∷ xs) x y (Memᴰ.tail m) = Memᴰ.tail (Memᴰ-snoc_old xs x y m)

pub Memᴰ-snoc_new : (xs : List Entry) (x : Entry) → Memᴰ x (xs ++ (x ∷ []))
Memᴰ-snoc_new [] x = Memᴰ.head refl
Memᴰ-snoc_new (y ∷ xs) x = Memᴰ.tail (Memᴰ-snoc_new xs x)

module _ (seeds : List String) (done : List Entry) (c : ℕ) where
  abbrev pub IsFound : List ImpactItem → Entry → Type 0
  IsFound items e = (contains seeds e.0 ≡ true) ⊎ (has_item e.0 e.1 items ≡ true)

  -- While a path at `c` hops is expanded: the queue is sorted and holds entries of the layers `c`
  -- and `c + 1` only, every visited path is known, and every entry is a seed or has an item.
  pub record IsLayered (s : Search) : Type 0 where
    pub layers : All (λ e. (c ≤ e.1) × (e.1 ≤ c + 1)) s.queue
    pub sorted : IsSortedQueue s.queue
    pub known : (p : String) → contains s.visited p ≡ true → IsKnown done s.queue p (c + 1)
    pub found : All (IsFound s.items) s.queue
    pub found_before : All (IsFound s.items) done

  IsFound-add_item :
      (item : ImpactItem) (items : List ImpactItem) (es : List Entry)
      → All (IsFound items) es
      → All (IsFound (add_item item items)) es
  IsFound-add_item item items es h =
      All-map es
        (λ e f. elim f [ inl s ↦ inl s | inr i ↦ inr (has_item-add_item e.0 e.1 item items i) ]) h

  IsKnown-after :
      (s : Search) (item : ImpactItem) (p : String)
      → item.hops ≡ c + 1
      → IsLayered s
      → contains (item.path ∷ s.visited) p ≡ true
      → IsKnown done (s.queue ++ ((item.path, item.hops) ∷ [])) p (c + 1)
  unfolding contains
  IsKnown-after s item p e h v = elim (Bool-cases (item.path == p)) [
    | inl same ↦
        let equal : item.path ≡ p = (eq_iff item.path p).0 same in
        rw (← equal)
          (item.hops, inr (Memᴰ-snoc_new s.queue (item.path, item.hops)), omega (arith, e))
    | inr other ↦
        let (n, where_, le) = h.known p (rw other at v) in
        (
          n,
          elim where_ [
            | inl m ↦ inl m
            | inr m ↦ inr (Memᴰ-snoc_old s.queue (item.path, item.hops) (p, n) m)
          ],
          le,
        )
  ]

  discover-IsLayered :
      (s : Search) (item : ImpactItem)
      → item.hops ≡ c + 1
      → IsLayered s
      → IsLayered (discover s item)
  unfolding discover
  discover-IsLayered s item e h = record {
    layers =
        All-snoc _ s.queue (item.path, item.hops) h.layers (omega (arith, e), omega (arith, e));
    sorted =
        IsSortedQueue-snoc s.queue (item.path, item.hops) h.sorted
          (All-map s.queue (λ y k. omega (arith, e, k.1)) h.layers);
    known = λ p v. IsKnown-after s item p e h v;
    found =
        All-snoc _ s.queue (item.path, item.hops) (IsFound-add_item item s.items s.queue h.found)
          (inr (has_item_added item s.items));
    found_before = IsFound-add_item item s.items done h.found_before;
  }

  pub visit-IsLayered :
      (s : Search) (e : GraphEdge) (item : ImpactItem)
      → item.hops ≡ c + 1
      → IsLayered s
      → IsLayered (visit s e item)
  unfolding visit
  visit-IsLayered s e item k h = elim (Bool-cases (is_followed e)) [
    | inr skipped ↦ rw skipped h
    | inl followed ↦ rw followed (elim (Bool-cases (contains s.visited item.path)) [
      | inl seen ↦ rw seen h
      | inr fresh ↦ rw fresh (discover-IsLayered s item k h)
    ])
  ]

-- A visit marks the path of a followed edge and unmarks none.
pub visit-visited :
    (s : Search) (e : GraphEdge) (item : ImpactItem) (p : String)
    → (is_followed e ≡ true → contains (visit s e item).visited item.path ≡ true)
      × (contains s.visited p ≡ true → contains (visit s e item).visited p ≡ true)
unfolding visit discover contains
visit-visited s e item p = ground (arith, eq_iff item.path item.path)
