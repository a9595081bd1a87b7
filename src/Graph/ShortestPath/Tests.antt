-- ===== src/Graph/ShortestPath/Tests.antt =====
-- `shortest_path_bfs` on a small graph.
use angavu_intelligence_back.Common.{
  ℕ, suc, ◌≤◌, ◌≡◌, ◌⊎◌, refl, some, none, any, List, [], ◌∷◌, length,
}
use angavu_intelligence_back.Graph.{Adjacency, get, contains, edge_ends}
use angavu_intelligence_back.Graph.Walk.{Walk, targets}
use angavu_intelligence_back.Graph.ShortestPath.{
  shortest_path_bfs, search_loop, reconstruct, climb, discover, discover_all,
}
use angavu_intelligence_back.Graph.ShortestPath.Climb.{Route}
use angavu_intelligence_back.Graph.ShortestPath.Least.{shortest_path_bfs-Route}

-- Two ways from a farm to a shop, one of them longer, and a port that no road leads to.
abbrev roads : Adjacency
roads = (0, 1 ∷ 2 ∷ []) ∷ (1, 3 ∷ []) ∷ (2, 4 ∷ []) ∷ (3, 4 ∷ []) ∷ (4, []) ∷ (9, 0 ∷ []) ∷ []

short_way : shortest_path_bfs roads 0 4 ≡ some (some (0 ∷ 2 ∷ 4 ∷ []))
unfolding shortest_path_bfs search_loop reconstruct climb discover discover_all contains any targets
    get edge_ends
short_way = refl

no_way : shortest_path_bfs roads 0 9 ≡ some none
unfolding shortest_path_bfs search_loop reconstruct climb discover discover_all contains any targets
    get edge_ends
no_way = refl

shortest_path_bfs-Route_example :
    ((path : List ℕ) × (shortest_path_bfs roads 0 4 ≡ some (some path))
      × Route roads 4 0 path
      × ((n : ℕ) → Walk roads 0 4 n → length path ≤ suc n))
    ⊎ ((shortest_path_bfs roads 0 4 ≡ some none) × ((n : ℕ) → ¬ Walk roads 0 4 n))
shortest_path_bfs-Route_example = shortest_path_bfs-Route roads 0 4
