-- ===== src/Graph/Topological/Cycles.antt =====
-- `topological_sort` and `has_cycle`, by the cycles of the graph.
use angavu_intelligence_back.Common.{
  ℕ, zero, suc, ◌≡◌, ◌∙◌, ◌↔◌, ◌⊎◌, refl, sym, ap, Bool, true, false, not, Option, some, none, List,
  [], ◌∷◌, map, length, inl, inr, Bool-cases, arith,
}
use mathlib.Core.Logic.{⊎_elim}
use mathlib.Core.List.{Memᴰ, reverse}
use angavu_intelligence_back.Graph.{Adjacency, contains}
use angavu_intelligence_back.Graph.Walk.{Edge, Walk, step, targets}
use angavu_intelligence_back.Graph.Topological.{
  remove, Sorting, Checking, if_true, if_false, enter, leave, sort_neighbors, check_neighbors,
  topo_dfs, dfs_cycle_check, sort_from, check_from, nodes, topological_sort, has_cycle,
}
use angavu_intelligence_back.Graph.Topological.Members.{contains-reverse, present_right}
use angavu_intelligence_back.Graph.Topological.Order.{IsTopological, IsNode, Edge-later, no_return}
use angavu_intelligence_back.Graph.Topological.Trail.{Cycle}
use angavu_intelligence_back.Graph.Topological.Visit.{After, cyclic, clean}
use angavu_intelligence_back.Graph.Topological.Keys.{empty, keys_returned, from_key}

module _ (g : Adjacency) where
  entered_from : {v w n : ℕ} → Walk g v w (suc n) → (u : ℕ) × Edge g u w
  entered_from (step {u} walk e) = (u, e)

  no_cycle :
      (order : List ℕ)
      → IsTopological g order
      → ((v : ℕ) → IsNode g v → contains order v ≡ true)
      → ¬ Cycle g
  no_cycle order o all (v, n, walk) = no_return g order v o (all v (inr (entered_from walk))) walk

  -- What a list of all the nodes, in an order in which no edge leads back, says of the graph.
  abbrev pub Orders : List ℕ → Type 0
  Orders order =
      IsTopological g order × ((v : ℕ) → (contains order v ≡ true) ↔ IsNode g v) × (¬ Cycle g)

  sorted_all :
      (t : Sorting)
      → After g empty t
      → ((w : ℕ) → Memᴰ w (map (λ e. e.0) g) → contains t.stack w ≡ true)
      → Orders (reverse t.stack)
  sorted_all t a all =
      let i = a.searching in
      let node_in : (v : ℕ) → IsNode g v → contains (reverse t.stack) v ≡ true = λ v.
        ⊎_elim (λ key. contains-reverse t.stack v ∙ all v key)
          (λ end.
            Edge-later g (reverse t.stack) end.0 v i.ordered
              (contains-reverse t.stack end.0 ∙ all end.0 (from_key g end.0 v end.1)) end.1) in
      (
        i.ordered,
        λ v. (
          λ h. i.known v (present_right _ _ _ (i.split v) (sym (contains-reverse t.stack v) ∙ h)),
          node_in v,
        ),
        no_cycle (reverse t.stack) i.ordered node_in,
      )

-- The sort of any graph returns: either an order of all its nodes, each of them once, in which every
-- edge leads from a node to a later one, where the graph has no cycle; or no order, where it has one.
pub topological_sort-IsTopological :
    (g : Adjacency)
    → ((order : List ℕ) × (topological_sort g ≡ some (some order)) × Orders g order)
      ⊎ ((topological_sort g ≡ some none) × Cycle g)
unfolding topological_sort
topological_sort-IsTopological g = elim (keys_returned g) [
  | cyclic t e c ↦ inr (rw e refl, c)
  | clean t e p ↦ inl (reverse t.stack, rw e refl, sorted_all g t p.0 p.1)
]

forget : Sorting → Checking
forget s = record { visited = s.visited; rec_stack = s.rec_stack }

-- The search for a cycle answers what the sort does not, and keeps the same state but for the stack.
opposite : Option (Bool × Sorting) → Option (Bool × Checking)
unfolding forget
opposite none = none
opposite (some (b, s)) = some (not b, forget s)

if_false-opposite :
    (r : Option (Bool × Sorting)) (next : Sorting → Option (Bool × Sorting))
    (next' : Checking → Option (Bool × Checking))
    → ((t : Sorting) → next' (forget t) ≡ opposite (next t))
    → if_false (opposite r) next' ≡ opposite (if_true r next)
unfolding opposite
if_false-opposite none next next' same = refl
if_false-opposite (some (true, t)) next next' same = same t
if_false-opposite (some (false, t)) next next' same = refl

check_neighbors-sort_neighbors :
    (visit : ℕ → Sorting → Option (Bool × Sorting))
    (visit' : ℕ → Checking → Option (Bool × Checking))
    → ((v : ℕ) (s : Sorting) → visit' v (forget s) ≡ opposite (visit v s))
    → (vs : List ℕ) (s : Sorting)
    → check_neighbors visit' vs (forget s) ≡ opposite (sort_neighbors visit vs s)
unfolding check_neighbors sort_neighbors forget opposite
check_neighbors-sort_neighbors visit visit' same [] s = refl
check_neighbors-sort_neighbors visit visit' same (v ∷ vs) s =
    elim (Bool-cases (contains s.visited v)) [
      | inl old ↦ ground (arith, check_neighbors-sort_neighbors visit visit' same vs s)
      | inr new ↦
          rw (new, check_neighbors, sort_neighbors, same v s)
            (if_false-opposite (visit v s) (sort_neighbors visit vs) (check_neighbors visit' vs)
              (check_neighbors-sort_neighbors visit visit' same vs))
    ]

module _ (g : Adjacency) where
  dfs_cycle_check-topo_dfs :
      (fuel v : ℕ) (s : Sorting)
      → dfs_cycle_check g fuel v (forget s) ≡ opposite (topo_dfs g fuel v s)
  unfolding dfs_cycle_check topo_dfs opposite forget enter leave
  dfs_cycle_check-topo_dfs zero v s = refl
  dfs_cycle_check-topo_dfs (suc fuel) v s =
      ap
        (λ r.
          if_false r
            (λ t. some (false, record { visited = t.visited; rec_stack = remove v t.rec_stack })))
        (check_neighbors-sort_neighbors (topo_dfs g fuel) (dfs_cycle_check g fuel)
          (dfs_cycle_check-topo_dfs fuel) (targets g v) (enter v s))
      ∙ if_false-opposite (sort_neighbors (topo_dfs g fuel) (targets g v) (enter v s))
          (λ t. some (true, leave v t))
          (λ t. some (false, record { visited = t.visited; rec_stack = remove v t.rec_stack }))
          (λ t. refl)

  check_from-sort_from :
      (fuel : ℕ) (ks : List ℕ) (s : Sorting)
      → check_from g fuel ks (forget s) ≡ opposite (sort_from g fuel ks s)
  unfolding check_from sort_from forget opposite
  check_from-sort_from fuel [] s = refl
  check_from-sort_from fuel (node ∷ rest) s = elim (Bool-cases (contains s.visited node)) [
    | inl old ↦ ground (arith, check_from-sort_from fuel rest s)
    | inr new ↦
        rw (new, check_from, sort_from, dfs_cycle_check-topo_dfs fuel node s)
          (if_false-opposite (topo_dfs g fuel node s) (sort_from g fuel rest)
            (check_from g fuel rest) (check_from-sort_from fuel rest))
  ]

-- The test for cycles returns on any graph: true where the graph has a cycle, which is also where the
-- sort gives no order, and false where it has none.
pub has_cycle-Cycle :
    (g : Adjacency)
    → ((has_cycle g ≡ some true) × (topological_sort g ≡ some none) × Cycle g)
      ⊎ ((has_cycle g ≡ some false) × (¬ Cycle g))
unfolding has_cycle topological_sort opposite forget
has_cycle-Cycle g =
    let same = check_from-sort_from g (length (nodes g)) (map (λ e. e.0) g) empty in
    elim (keys_returned g) [
      | cyclic t e c ↦ inl (rw (same, e) refl, rw e refl, c)
      | clean t e p ↦ inr (rw (same, e) refl, (sorted_all g t p.0 p.1).2)
    ]
