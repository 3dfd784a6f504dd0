-- ===== src/Impact/Search.antt =====
-- The breadth-first search of `analyzeImpact` in src/kernel/impact.ts.
use Prim.Native.String.{String}
use uads.Common.{
  ℕ, zero, suc, Bool, not, ◌||◌, ◌+◌, List, [], ◌∷◌, ◌++◌, Option, none, some, map, filter,
  contains, leb, ◌==◌, string_eq, if◌then◌else◌, ◌&◌,
}
use uads.Impact.Types.{
  EdgeType, GraphEdge, ImpactItem, ImpactRelation, is_code_dependency, is_structural, edge_text,
  dependency, dependent, documentation, config,
}
use uads.Impact.Items.{add_item}

pub record Search : Type 0 where
  pub queue : List (String × ℕ)
  pub visited : List String
  pub items : List ImpactItem

abbrev pub is_followed : GraphEdge → Bool
is_followed e = is_code_dependency e.edge_type || is_structural e.edge_type

abbrev relation_along : EdgeType → ImpactRelation
relation_along EdgeType.documents = documentation
relation_along EdgeType.configures = config
relation_along EdgeType.manifest_reference = config
relation_along _ = dependency

-- `reverseStructuralRelation` for the structural types, `dependent` for the rest
abbrev relation_against : EdgeType → ImpactRelation
relation_against EdgeType.documents = documentation
relation_against EdgeType.configures = config
relation_against EdgeType.manifest_reference = config
relation_against _ = dependent

abbrev pub along_item : GraphEdge → ℕ → ImpactItem
along_item e hops = record {
  path = e.target;
  relation = relation_along e.edge_type;
  reason = edge_text e.edge_type & " from " & e.source & " (" & e.method & ")";
  confidence = e.confidence;
  hops = hops;
}

abbrev pub against_item : GraphEdge → ℕ → ImpactItem
against_item e hops = record {
  path = e.source;
  relation = relation_against e.edge_type;
  reason = "reverse " & edge_text e.edge_type & " from " & e.source & " (" & e.method & ")";
  confidence = e.confidence;
  hops = hops;
}

-- A path that was not visited is marked, added and put at the end of the queue.
unfoldable pub discover : Search → ImpactItem → Search
discover s item = record {
  queue = s.queue ++ ((item.path, item.hops) ∷ []);
  visited = item.path ∷ s.visited;
  items = add_item item s.items;
}

unfoldable pub visit : Search → GraphEdge → ImpactItem → Search
visit s e item =
    if not (is_followed e) then s else if contains s.visited item.path then s else discover s item

-- The two loops over the edges that leave and that enter the current path.
unfoldable pub visit_along : ℕ → Search → List GraphEdge → Search
visit_along hops s [] = s
visit_along hops s (e ∷ es) = visit_along hops (visit s e (along_item e (hops + 1))) es

unfoldable pub visit_against : ℕ → Search → List GraphEdge → Search
visit_against hops s [] = s
visit_against hops s (e ∷ es) = visit_against hops (visit s e (against_item e (hops + 1))) es

unfoldable pub expand : List GraphEdge → String → ℕ → Search → Search
expand edges path hops s =
    visit_against hops (visit_along hops s (filter (λ (e : GraphEdge). e.source == path) edges))
      (filter (λ (e : GraphEdge). e.target == path) edges)

abbrev pub shifted : List (String × ℕ) → Search → Search
shifted queue s = record { queue = queue; visited = s.visited; items = s.items }

-- One turn of the loop, on the entry at the front of the queue.
unfoldable pub turn : ℕ → List GraphEdge → String → ℕ → List (String × ℕ) → Search → Search
turn limit edges path hops queue s =
    if leb limit hops then shifted queue s else expand edges path hops (shifted queue s)

-- The loop on the queue of a state, where `loop` goes on.
abbrev pub take_turn :
    (Search → Option Search) → ℕ → List GraphEdge → List (String × ℕ) → Search → Option Search
take_turn loop limit edges [] s = some s
take_turn loop limit edges (entry ∷ queue) s = loop (turn limit edges entry.0 entry.1 queue s)

-- The loop on fuel.
unfoldable pub search_graph : ℕ → ℕ → List GraphEdge → Search → Option Search
search_graph zero limit edges s = none
search_graph (suc n) limit edges s = take_turn (search_graph n limit edges) limit edges s.queue s

-- `seeds.map(...)` and `new Set(seeds)`, beside the items found before.
unfoldable pub start : List String → List ImpactItem → Search
start seeds items = record { queue = map (λ s. (s, 0)) seeds; visited = seeds; items = items }
