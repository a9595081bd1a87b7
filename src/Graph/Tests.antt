-- ===== src/Graph/Tests.antt =====
-- The searches on small graphs.
use angavu_intelligence_back.Common.{All, ℕ, ◌≡◌, refl, true, some, any, retain, List, [], ◌∷◌, ◌↔◌}
use mathlib.Core.List.{Memᴰ}
use mathlib.Core.List.Memᴰ
use mathlib.Core.Option
use angavu_intelligence_back.Graph.{
  Adjacency, Search, get, add_node, add_edge, add_undirected_edge, entry_push, bfs,
  k_hop_neighborhood, within, loop, start, expand, scan, offer, found, popped, edge_ends, contains,
}
use angavu_intelligence_back.Graph.Components.{
  connected_components, components_from, push_component, fresh, keys,
}
use angavu_intelligence_back.Graph.Components.Classes.{
  IsUndirected, IsComponent, AreApart, connected_components-IsComponent,
  add_undirected_edge-IsUndirected,
}
use angavu_intelligence_back.Graph.Walk.{targets, Walk, Distance}
use angavu_intelligence_back.Graph.Dfs
use angavu_intelligence_back.Graph.Dfs.{dfs}
use angavu_intelligence_back.Graph.Distance.{bfs-Distance}
use angavu_intelligence_back.Graph.Dfs.Reach.{dfs-bfs}

-- A farm sells to a mill and a trader, the mill sells to the trader, and a shop buys nothing.
abbrev supply : Adjacency
supply = (0, 1 ∷ 2 ∷ []) ∷ (1, 2 ∷ []) ∷ (2, []) ∷ (7, []) ∷ []

supply_built : add_node 7 (add_edge 1 2 (add_edge 0 2 (add_edge 0 1 []))) ≡ supply
unfolding add_edge add_node entry_push
supply_built = refl

undirected : add_undirected_edge 3 4 [] ≡ (3, 4 ∷ []) ∷ (4, 3 ∷ []) ∷ []
unfolding add_undirected_edge entry_push
undirected = refl

visited_supply : Option.map (λ s. s.visited) (bfs supply 0) ≡ some (0 ∷ 1 ∷ 2 ∷ [])
unfolding bfs loop start edge_ends expand get scan offer contains any popped found
visited_supply = refl

parents_supply : Option.map (λ s. get 2 s.parent) (bfs supply 0) ≡ some (some (some 0))
unfolding bfs loop start edge_ends expand get scan offer contains any popped found
parents_supply = refl

-- No edge leads back, and the depth-first search reports a cycle.
flagged_supply : Option.map (λ (s : Dfs.Search). s.has_cycle) (dfs supply 0) ≡ some true
unfolding dfs Dfs.loop Dfs.start edge_ends Dfs.round contains any Dfs.visit get Dfs.push_neighbors
    Dfs.skip
flagged_supply = refl

hop_supply : k_hop_neighborhood supply 0 1 ≡ some (0 ∷ 1 ∷ 2 ∷ [])
unfolding k_hop_neighborhood bfs loop start edge_ends expand get scan offer contains any popped
    found retain within
hop_supply = refl

bfs-Distance_example :
    (t : Search) × (bfs supply 0 ≡ some t)
    × ((v d : ℕ) → (get v t.depths ≡ some d) ↔ Distance supply 0 v d)
    × ((v n : ℕ) → Walk supply 0 v n → (d : ℕ) × (get v t.depths ≡ some d))
    × ((v : ℕ) → Memᴰ v t.visited ↔ ((d : ℕ) × (get v t.depths ≡ some d)))
bfs-Distance_example = bfs-Distance supply 0

dfs-bfs_example :
    (t : Dfs.Search) × (b : Search) × (dfs supply 0 ≡ some t)
    × (bfs supply 0 ≡ some b)
    × ((v : ℕ) → Memᴰ v t.visited ↔ Memᴰ v b.visited)
dfs-bfs_example = dfs-bfs supply 0

-- Two villages and a road between them, and a village apart.
abbrev roads : Adjacency
roads = add_undirected_edge 3 4 (add_undirected_edge 5 5 [])

roads-IsUndirected : IsUndirected roads
unfolding targets get
roads-IsUndirected =
    add_undirected_edge-IsUndirected 3 4 (add_undirected_edge 5 5 [])
      (add_undirected_edge-IsUndirected 5 5 [] (λ u v e. absurd (Memᴰ.not-nil e)))

connected_components-IsComponent_example :
    (cs : List (List ℕ)) × (connected_components roads ≡ some cs)
    × All (IsComponent roads) cs
    × ((k : ℕ) → Memᴰ k (keys roads) → (c : List ℕ) × Memᴰ c cs × Memᴰ k c)
    × AreApart cs
connected_components-IsComponent_example = connected_components-IsComponent roads roads-IsUndirected

parts_roads : connected_components roads ≡ some ((5 ∷ []) ∷ (3 ∷ 4 ∷ []) ∷ [])
unfolding connected_components add_undirected_edge entry_push components_from push_component fresh
    bfs loop start edge_ends expand get scan offer contains any popped found retain
parts_roads = refl

-- Of a directed edge the answer depends on the order of the keys.
ordered : connected_components ((0, 1 ∷ []) ∷ (1, []) ∷ []) ≡ some ((0 ∷ 1 ∷ []) ∷ [])
unfolding connected_components components_from push_component fresh bfs loop start edge_ends expand
    get scan offer contains any popped found retain
ordered = refl

other_order : connected_components ((1, []) ∷ (0, 1 ∷ []) ∷ []) ≡ some ((1 ∷ []) ∷ (0 ∷ []) ∷ [])
unfolding connected_components components_from push_component fresh bfs loop start edge_ends expand
    get scan offer contains any popped found retain
other_order = refl
