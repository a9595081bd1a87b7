-- ===== src/Graph/Topological.antt =====
-- rust-api/src/optimization/graph_traversal.rs: `topological_sort` with `topo_dfs`, and `has_cycle` with
-- `dfs_cycle_check`. The recursive functions run on fuel, one call deep for every node; `none` means that
-- it ran out. The loop over the neighbours takes the recursive call as a function.
use angavu_intelligence_back.Common.{
  ℕ, zero, suc, Bool, true, false, not, Option, none, some, List, [], ◌∷◌, ◌++◌, length, map,
  retain, ◌==◌,
}
use mathlib.Core.List.{reverse}
use angavu_intelligence_back.Graph.{Adjacency, contains, edge_ends}
use angavu_intelligence_back.Graph.Walk.{targets}
pub mod Members
pub mod Trail
pub mod Order
pub mod Visit
pub mod Search
pub mod Keys
pub mod Cycles
mod Tests

-- What `topo_dfs` changes. The end of `stack` is its top.
pub record Sorting : Type 0 where
  pub visited : List ℕ
  pub stack : List ℕ
  pub rec_stack : List ℕ

-- What `dfs_cycle_check` changes.
pub record Checking : Type 0 where
  pub visited : List ℕ
  pub rec_stack : List ℕ

-- The Boolean result of a call with the state after it, and what follows if it is true.
abbrev pub if_true : {S : Type 0} → Option (Bool × S) → (S → Option (Bool × S)) → Option (Bool × S)
if_true none next = none
if_true (some (false, s)) next = some (false, s)
if_true (some (true, s)) next = next s

abbrev pub if_false : {S : Type 0} → Option (Bool × S) → (S → Option (Bool × S)) → Option (Bool × S)
if_false none next = none
if_false (some (true, s)) next = some (true, s)
if_false (some (false, s)) next = next s

-- `rec_stack.remove(&node)`
unfoldable pub remove : ℕ → List ℕ → List ℕ
remove node = retain (λ n. not (n == node))

unfoldable pub enter : ℕ → Sorting → Sorting
enter node s = record s { visited = node ∷ s.visited; rec_stack = node ∷ s.rec_stack }

unfoldable pub leave : ℕ → Sorting → Sorting
leave node s = record s { stack = s.stack ++ node ∷ []; rec_stack = remove node s.rec_stack }

-- The loop over the neighbours in `topo_dfs`.
unfoldable pub sort_neighbors :
    (ℕ → Sorting → Option (Bool × Sorting)) → List ℕ → Sorting → Option (Bool × Sorting)
sort_neighbors visit [] s = some (true, s)
sort_neighbors visit (v ∷ vs) s = elim (contains s.visited v) [
  | false ↦ if_true (visit v s) (λ t. sort_neighbors visit vs t)
  | true ↦ elim (contains s.rec_stack v) [
    | true ↦ some (false, s)
    | false ↦ sort_neighbors visit vs s
  ]
]

-- The loop over the neighbours in `dfs_cycle_check`.
unfoldable pub check_neighbors :
    (ℕ → Checking → Option (Bool × Checking)) → List ℕ → Checking → Option (Bool × Checking)
check_neighbors visit [] s = some (false, s)
check_neighbors visit (v ∷ vs) s = elim (contains s.visited v) [
  | false ↦ if_false (visit v s) (λ t. check_neighbors visit vs t)
  | true ↦ elim (contains s.rec_stack v) [
    | true ↦ some (true, s)
    | false ↦ check_neighbors visit vs s
  ]
]

module _ (g : Adjacency) where
  unfoldable pub topo_dfs : ℕ → ℕ → Sorting → Option (Bool × Sorting)
  topo_dfs zero node s = none
  topo_dfs (suc fuel) node s =
      if_true (sort_neighbors (topo_dfs fuel) (targets g node) (enter node s))
        (λ t. some (true, leave node t))

  unfoldable pub dfs_cycle_check : ℕ → ℕ → Checking → Option (Bool × Checking)
  dfs_cycle_check zero node s = none
  dfs_cycle_check (suc fuel) node s =
      let entered : Checking = record {
        visited = node ∷ s.visited;
        rec_stack = node ∷ s.rec_stack;
      } in
      if_false (check_neighbors (dfs_cycle_check fuel) (targets g node) entered)
        (λ t. some (false, record t { rec_stack = remove node t.rec_stack }))

  -- The loop over the keys in `topological_sort`.
  unfoldable pub sort_from : ℕ → List ℕ → Sorting → Option (Bool × Sorting)
  sort_from fuel [] s = some (true, s)
  sort_from fuel (node ∷ rest) s = elim (contains s.visited node) [
    | true ↦ sort_from fuel rest s
    | false ↦ if_true (topo_dfs fuel node s) (λ t. sort_from fuel rest t)
  ]

  -- The loop over the keys in `has_cycle`.
  unfoldable pub check_from : ℕ → List ℕ → Checking → Option (Bool × Checking)
  check_from fuel [] s = some (false, s)
  check_from fuel (node ∷ rest) s = elim (contains s.visited node) [
    | true ↦ check_from fuel rest s
    | false ↦ if_false (dfs_cycle_check fuel node s) (λ t. check_from fuel rest t)
  ]

  -- The keys, and the ends of the edges.
  abbrev pub nodes : List ℕ
  nodes = map (λ e. e.0) g ++ edge_ends g

sorted : Option (Bool × Sorting) → Option (Option (List ℕ))
sorted none = none
sorted (some (false, s)) = some none
sorted (some (true, s)) = some (some (reverse s.stack))

answer : Option (Bool × Checking) → Option Bool
answer none = none
answer (some (b, s)) = some b

unfoldable pub topological_sort : Adjacency → Option (Option (List ℕ))
unfolding sorted
topological_sort g = sorted (
    sort_from g (length (nodes g)) (map (λ e. e.0) g)
      (record { visited = []; stack = []; rec_stack = [] }))

unfoldable pub has_cycle : Adjacency → Option Bool
unfolding answer
has_cycle g =
    answer
      (check_from g (length (nodes g)) (map (λ e. e.0) g) (record { visited = []; rec_stack = [] }))
