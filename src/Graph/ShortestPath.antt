-- ===== src/Graph/ShortestPath.antt =====
-- rust-api/src/optimization/graph_traversal.rs: `shortest_path_bfs`. Its two `while` loops run on fuel;
-- `none` means that it ran out.
use angavu_intelligence_back.Common.{
  ℕ, zero, suc, Option, some, none, List, [], ◌∷◌, ◌++◌, length, ◌==◌, true, false, if◌then◌else◌,
}
use mathlib.Core.List.{reverse}
use angavu_intelligence_back.Graph.{Adjacency, get, contains, edge_ends}
use angavu_intelligence_back.Graph.Walk.{targets}
pub mod Climb
pub mod Mirror
pub mod Rounds
pub mod Least
mod Tests

-- The local state of the search.
pub record Trace : Type 0 where
  pub visited : List ℕ
  pub parent : List (ℕ × ℕ)
  pub queue : List ℕ

unfoldable pub discover : ℕ → Trace → ℕ → Trace
discover node p neighbor = if contains p.visited neighbor then p else record {
  visited = neighbor ∷ p.visited;
  parent = (neighbor, node) ∷ p.parent;
  queue = p.queue ++ neighbor ∷ [];
}

-- The loop over the neighbours.
unfoldable pub discover_all : ℕ → Trace → List ℕ → Trace
discover_all node p [] = p
discover_all node p (v ∷ vs) = discover_all node (discover node p v) vs

-- `while let Some(&p) = parent.get(&current)`
unfoldable pub climb : List (ℕ × ℕ) → ℕ → ℕ → List ℕ → Option (List ℕ)
climb parent zero current path = elim (get current parent) [ none ↦ some path | some _ ↦ none ]
climb parent (suc fuel) current path = elim (get current parent) [
  | none ↦ some path
  | some p ↦ climb parent fuel p (path ++ p ∷ [])
]

reversed : Option (List ℕ) → Option (Option (List ℕ))
reversed none = none
reversed (some path) = some (some (reverse path))

unfoldable pub reconstruct : ℕ → List (ℕ × ℕ) → Option (Option (List ℕ))
unfolding reversed
reconstruct target parent = reversed (climb parent (length parent) target (target ∷ []))

module _ (g : Adjacency) (target : ℕ) where
  unfoldable pub search_loop : ℕ → Trace → Option (Option (List ℕ))
  search_loop zero p = elim p.queue [ [] ↦ some none | _ ∷ _ ↦ none ]
  search_loop (suc fuel) p = elim p.queue [
    | [] ↦ some none
    | node ∷ rest ↦ elim (node == target) [
      | true ↦ reconstruct target p.parent
      | false ↦ search_loop fuel (discover_all node (record p { queue = rest }) (targets g node))
    ]
  ]

unfoldable pub shortest_path_bfs : Adjacency → ℕ → ℕ → Option (Option (List ℕ))
shortest_path_bfs g source target =
    if source == target
    then some (some (source ∷ []))
    else search_loop g target (suc (length (edge_ends g)))
        (record { visited = source ∷ []; parent = []; queue = source ∷ [] })
