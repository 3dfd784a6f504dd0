-- ===== src/Impact/Items.antt =====
-- `add` of `analyzeImpact` in src/kernel/impact.ts: the map of items by path.
use uads.Common.{inl, inr, Bool-cases, List, [], ◌∷◌, ltb, ◌==◌, string_eq, if◌then◌else◌, All}
use uads.Impact.Types.{ImpactItem}

-- The map keeps the order in which paths came; an item with fewer hops takes its path's place.
unfoldable pub add_item : ImpactItem → List ImpactItem → List ImpactItem
add_item item [] = item ∷ []
add_item item (i ∷ items) =
    let rest = add_item item items in
    if i.path == item.path
    then (if ltb item.hops i.hops then item ∷ items else i ∷ items)
    else i ∷ rest

pub All-add_item {ℓ} :
    (P : ImpactItem → Type ℓ) (item : ImpactItem) (items : List ImpactItem)
    → P item
    → All P items
    → All P (add_item item items)
unfolding add_item
All-add_item P item [] p h = (p, tt)
All-add_item P item (i ∷ items) p h = elim (Bool-cases (i.path == item.path)) [
  | inr other ↦ rw other (h.0, All-add_item P item items p h.1)
  | inl same ↦ rw same (elim (Bool-cases (ltb item.hops i.hops)) [
    | inl fewer ↦ rw fewer (p, h.1)
    | inr more ↦ rw more h
  ])
]
