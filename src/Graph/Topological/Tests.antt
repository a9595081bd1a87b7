-- ===== src/Graph/Topological/Tests.antt =====
-- The sort and the test for cycles on small graphs.
use angavu_intelligence_back.Common.{
  ℕ, ◌≡◌, ◌⊎◌, refl, true, false, some, none, any, retain, List, [], ◌∷◌,
}
use angavu_intelligence_back.Graph.{Adjacency, get, contains, edge_ends}
use angavu_intelligence_back.Graph.Walk.{targets}
use angavu_intelligence_back.Graph.Topological.{
  topological_sort, has_cycle, sort_from, check_from, topo_dfs, dfs_cycle_check, sort_neighbors,
  check_neighbors, enter, leave, remove,
}
use angavu_intelligence_back.Graph.Topological.Trail.{Cycle}
use angavu_intelligence_back.Graph.Topological.Cycles.{
  Orders, topological_sort-IsTopological, has_cycle-Cycle,
}

-- Steps of a process, the last of which needs both of two others.
abbrev steps : Adjacency
steps = (3, []) ∷ (0, 1 ∷ 2 ∷ []) ∷ (1, 3 ∷ []) ∷ (2, 3 ∷ []) ∷ []

-- Three firms that owe one another.
abbrev debts : Adjacency
debts = (5, 6 ∷ []) ∷ (6, 7 ∷ []) ∷ (7, 5 ∷ []) ∷ []

sorted_steps : topological_sort steps ≡ some (some (0 ∷ 2 ∷ 1 ∷ 3 ∷ []))
unfolding topological_sort sort_from topo_dfs sort_neighbors enter leave remove retain contains any
    targets get edge_ends
sorted_steps = refl

debts_unsorted : topological_sort debts ≡ some none
unfolding topological_sort sort_from topo_dfs sort_neighbors enter leave remove retain contains any
    targets get edge_ends
debts_unsorted = refl

debts_cycle : has_cycle debts ≡ some true
unfolding has_cycle check_from dfs_cycle_check check_neighbors remove retain contains any targets
    get edge_ends
debts_cycle = refl

topological_sort-IsTopological_example :
    ((order : List ℕ) × (topological_sort steps ≡ some (some order)) × Orders steps order)
    ⊎ ((topological_sort steps ≡ some none) × Cycle steps)
topological_sort-IsTopological_example = topological_sort-IsTopological steps

has_cycle-Cycle_example :
    ((has_cycle debts ≡ some true) × (topological_sort debts ≡ some none) × Cycle debts)
    ⊎ ((has_cycle debts ≡ some false) × (¬ Cycle debts))
has_cycle-Cycle_example = has_cycle-Cycle debts
