-- ===== src/Graph.antt =====
-- rust-api/src/optimization/graph_traversal.rs: the graph and its breadth-first search. A hash map is
-- an association list, in which the first entry of a key counts; a hash set is a list. A map or a set
-- that only gains new keys is written by consing. The queue is a list, its front first.
use angavu_intelligence_back.Common.{
  ℕ, zero, suc, ◌^◌, ◌-◌, ◌+◌, Bool, Option, none, some, List, [], ◌∷◌, ◌++◌, length, leb, ◌==◌,
  any, retain, if◌then◌else◌,
}
pub mod Walk
pub mod Step
pub mod Loop
pub mod Level
pub mod Distance
pub mod Neighborhood
pub mod Dfs
pub mod Components
pub mod Topological
pub mod ShortestPath
mod Tests

-- `adjacency`: a node and its neighbours, in the order in which the edges were added.
abbrev pub Adjacency : Type 0
Adjacency = List (ℕ × List ℕ)

unfoldable pub get {ℓ} : {A : Type ℓ} → ℕ → List (ℕ × A) → Option A
get k [] = none
get k ((j, a) ∷ m) = if j == k then some a else get k m

unfoldable pub contains : List ℕ → ℕ → Bool
contains seen v = any (λ w. w == v) seen

-- `entry(from).or_default().push(to)`
unfoldable pub entry_push : ℕ → ℕ → Adjacency → Adjacency
entry_push from to [] = (from, to ∷ []) ∷ []
entry_push from to ((j, vs) ∷ g) =
    if j == from then (j, vs ++ to ∷ []) ∷ g else (j, vs) ∷ entry_push from to g

unfoldable pub add_node : ℕ → Adjacency → Adjacency
add_node node [] = (node, []) ∷ []
add_node node ((j, vs) ∷ g) = if j == node then (j, vs) ∷ g else (j, vs) ∷ add_node node g

unfoldable pub add_edge : ℕ → ℕ → Adjacency → Adjacency
add_edge from to g = add_node to (entry_push from to g)

unfoldable pub add_undirected_edge : ℕ → ℕ → Adjacency → Adjacency
add_undirected_edge a b g = entry_push b a (entry_push a b g)

-- The local state of `bfs`. `visited` holds the nodes that left the queue, in this order.
pub record Search : Type 0 where
  pub visited : List ℕ
  pub depths : List (ℕ × ℕ)
  pub parent : List (ℕ × Option ℕ)
  pub visited_set : List ℕ
  pub queue : List (ℕ × ℕ)

-- A neighbour that is seen for the first time.
unfoldable pub found : ℕ → ℕ → Search → ℕ → Search
found node depth s neighbor = record {
  visited = s.visited;
  depths = (neighbor, suc depth) ∷ s.depths;
  parent = (neighbor, some node) ∷ s.parent;
  visited_set = neighbor ∷ s.visited_set;
  queue = s.queue ++ (neighbor, suc depth) ∷ [];
}

-- The body of the loop over the neighbours.
unfoldable pub offer : ℕ → ℕ → Search → ℕ → Search
offer node depth s neighbor =
    if contains s.visited_set neighbor then s else found node depth s neighbor

unfoldable pub scan : ℕ → ℕ → Search → List ℕ → Search
scan node depth s [] = s
scan node depth s (v ∷ vs) = scan node depth (offer node depth s v) vs

-- `visited_order.push(node)`, after the node left the queue.
unfoldable pub popped : Search → ℕ → List (ℕ × ℕ) → Search
popped s node rest = record s { visited = s.visited ++ node ∷ []; queue = rest }

module _ (g : Adjacency) where
  -- One round of the `while` loop.
  unfoldable pub expand : Search → ℕ → ℕ → List (ℕ × ℕ) → Search
  expand s node depth rest = elim (get node g) [
    | none ↦ popped s node rest
    | some neighbors ↦ scan node depth (popped s node rest) neighbors
  ]

  unfoldable pub loop : ℕ → Search → Option Search
  loop zero s = elim s.queue [ [] ↦ some s | _ ∷ _ ↦ none ]
  loop (suc fuel) s = elim s.queue [
    | [] ↦ some s
    | (node, depth) ∷ rest ↦ loop fuel (expand s node depth rest)
  ]

  unfoldable pub start : ℕ → Search
  start source = record {
    visited = [];
    depths = (source, 0) ∷ [];
    parent = (source, none) ∷ [];
    visited_set = source ∷ [];
    queue = (source, 0) ∷ [];
  }

-- The ends of all edges.
unfoldable pub edge_ends : Adjacency → List ℕ
edge_ends [] = []
edge_ends ((_, vs) ∷ g) = vs ++ edge_ends g

-- `none` if the fuel runs out.
unfoldable pub bfs : Adjacency → ℕ → Option Search
bfs g source = loop g (suc (length (edge_ends g))) (start g source)

-- `usize::MAX`
abbrev usize_max : ℕ
usize_max = 2 ^ 64 - 1

-- `result.depths.get(n).copied().unwrap_or(usize::MAX) <= k`
unfoldable pub within : ℕ → Search → ℕ → Bool
within k result n = elim (get n result.depths) [ none ↦ leb usize_max k | some d ↦ leb d k ]

selected : ℕ → Option Search → Option (List ℕ)
selected k none = none
selected k (some result) = some (retain (within k result) result.visited)

unfoldable pub k_hop_neighborhood : Adjacency → ℕ → ℕ → Option (List ℕ)
unfolding selected
k_hop_neighborhood g source k = selected k (bfs g source)
