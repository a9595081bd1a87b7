-- ===== src/Graph/Components.antt =====
-- rust-api/src/optimization/graph_traversal.rs: `connected_components`. The keys of the map come in the
-- order of the association list, so what holds of every list holds of every order of a hash map.
use angavu_intelligence_back.Common.{
  ℕ, suc, ◌≡◌, refl, true, not, Option, none, some, List, [], ◌∷◌, ◌++◌, ◌↔◌, ◌⊎◌, inl, inr, All,
  map, retain, any, if◌then◌else◌, Bool-cases, arith,
}
use mathlib.Core.Logic.{⊎_elim}
use mathlib.Core.List.{Memᴰ}
use mathlib.Core.List.Memᴰ
use angavu_intelligence_back.Graph.{
  Adjacency, Search, get, contains, bfs, entry_push, add_undirected_edge,
}
use angavu_intelligence_back.Graph.Walk.{
  targets, Edge, Walk, here, step, Memᴰ-cons, Memᴰ-concat, Memᴰ-append,
}
use angavu_intelligence_back.Graph.Distance.{bfs-Distance}
use angavu_intelligence_back.Graph.Neighborhood.{Memᴰ-retain}
pub mod Classes

-- `if !component.is_empty() { components.push(component); }`, before the components that follow.
unfoldable pub push_component : List ℕ → Option (List (List ℕ)) → Option (List (List ℕ))
push_component component none = none
push_component [] (some rest) = some rest
push_component (v ∷ vs) (some rest) = some ((v ∷ vs) ∷ rest)

unfoldable pub fresh : List ℕ → List ℕ → List ℕ
fresh visited = retain (λ n. not (contains visited n))

module _ (g : Adjacency) where
  -- The loop over the keys, with the nodes visited so far.
  unfoldable pub components_from : List ℕ → List ℕ → Option (List (List ℕ))
  components_from [] visited = some []
  components_from (node ∷ nodes) visited =
      if contains visited node then components_from nodes visited else elim (bfs g node) [
        | none ↦ none
        | some result ↦
            push_component (fresh visited result.visited)
              (components_from nodes (fresh visited result.visited ++ visited))
      ]

  abbrev pub keys : List ℕ
  keys = map (λ e. e.0) g

  unfoldable pub connected_components : Option (List (List ℕ))
  connected_components = components_from keys []
