-- ===== src/Impact/Tests.antt =====
-- A small graph with a cycle, and the theorems on the search at it.
use Prim.Native.String.{String}
use uads.Common.{
  string_eq, true, Memᴰ, ◌⊎◌, arith, ℕ, List, [], ◌∷◌, Option, none, some, All, ◌≡◌, refl, filter,
  contains, map,
}
use uads.Impact.Types.{GraphEdge, ImpactItem, EdgeType}
use uads.Impact.Items.{add_item}
use uads.Impact.Search.{
  Search, along_item, against_item, discover, visit, visit_along, visit_against, expand, turn,
  search_graph, start,
}
use uads.Impact.Ends.{search_fuel, search_graph_ends}
use uads.Impact.Layers.{has_item}
use uads.Impact.Complete.{search_graph_complete}
use uads.Impact.Reach.{Reach, IsReached, search_graph_sound}

abbrev edge : String → String → GraphEdge
edge source target = record {
  edge_type = EdgeType.imports;
  source = source;
  target = target;
  method = "static";
  confidence = 90;
}

abbrev cycle : List GraphEdge
cycle = edge "a" "b" ∷ edge "b" "c" ∷ edge "c" "a" ∷ edge "d" "c" ∷ []

abbrev paths_of : Option Search → Option (List (String × ℕ))
paths_of none = none
paths_of (some s) = some (map (λ (i : ImpactItem). (i.path, i.hops)) s.items)

abbrev result : Option Search
result = search_graph (search_fuel cycle ("a" ∷ [])) 2 cycle (start ("a" ∷ []) [])

two_hops : paths_of result ≡ some (("b", 1) ∷ ("c", 1) ∷ ("d", 2) ∷ [])
unfolding search_graph turn expand visit_along visit_against visit discover add_item start filter
    contains
two_hops = refl

search_graph_ends_example :
    (end : Search) × (search_graph (search_fuel cycle ("a" ∷ [])) 2 cycle (start ("a" ∷ []) [])
      ≡ some end)
search_graph_ends_example = search_graph_ends 2 cycle ("a" ∷ []) []

abbrev finished : Search
finished = record {
  queue = [];
  visited = "d" ∷ "c" ∷ "b" ∷ "a" ∷ [];
  items =
      along_item (edge "a" "b") 1
      ∷ against_item (edge "c" "a") 1
      ∷ against_item (edge "d" "c") 2
      ∷ [];
}

search_graph_sound_example : All (IsReached cycle ("a" ∷ []) 2 []) finished.items
unfolding search_graph turn expand visit_along visit_against visit discover add_item start filter
    contains
search_graph_sound_example =
    search_graph_sound (search_fuel cycle ("a" ∷ [])) 2 cycle ("a" ∷ []) [] finished refl

search_graph_complete_example :
    (contains {A = String} ("a" ∷ []) "d" ≡ true) ⊎ (has_item "d" 2 finished.items ≡ true)
unfolding search_graph turn expand visit_along visit_against visit discover add_item start filter
    contains
search_graph_complete_example =
    search_graph_complete (search_fuel cycle ("a" ∷ [])) 2 cycle ("a" ∷ []) [] finished 2 "d" refl
      (Reach.against (edge "d" "c")
        (Reach.against (edge "c" "a") (Reach.seed refl) (Memᴰ.tail (Memᴰ.tail (Memᴰ.head refl)))
          refl refl)
        (Memᴰ.tail (Memᴰ.tail (Memᴰ.tail (Memᴰ.head refl)))) refl refl)
      (omega arith)
