-- ===== src/Graph/Dfs/Loop.antt =====
-- The loop of `dfs` ends, and keeps what one round keeps.
use angavu_intelligence_back.Common.{
  ℕ, zero, suc, ◌+◌, ◌≤◌, ◌≡◌, ap, false, some, List, [], ◌∷◌, inl, inr, length, length-append,
  if◌then◌else◌, Bool-cases, Option-cases, arith, any,
}
use angavu_intelligence_back.Graph.{Adjacency, get, contains, edge_ends}
use angavu_intelligence_back.Graph.Walk.{targets}
use angavu_intelligence_back.Graph.Loop.{List-cases}
use angavu_intelligence_back.Graph.Dfs.{
  Search, Entry, push_neighbors, visit, skip, round, loop, start, dfs,
}

-- The edges from nodes that are not visited yet.
abbrev edges_left : List ℕ → Adjacency → ℕ
edges_left seen [] = 0
edges_left seen ((j, vs) ∷ g) =
    let rest = edges_left seen g in if contains seen j then rest else length vs + rest

edges_left-cons_le :
    (u : ℕ) (seen : List ℕ) (g : Adjacency) → edges_left (u ∷ seen) g ≤ edges_left seen g
unfolding contains any
edges_left-cons_le u seen [] = omega arith
edges_left-cons_le u seen ((j, vs) ∷ g) = ground (arith, edges_left-cons_le u seen g)

edges_left-cons :
    (u : ℕ) (seen : List ℕ) (g : Adjacency)
    → contains seen u ≡ false
    → edges_left (u ∷ seen) g + length (targets g u) ≤ edges_left seen g
unfolding contains any targets get
edges_left-cons u seen [] h = omega arith
edges_left-cons u seen ((j, vs) ∷ g) h =
    ground (arith, edges_left-cons u seen g, edges_left-cons_le u seen g)

edges_left-nil : (g : Adjacency) → edges_left [] g ≤ length (edge_ends g)
unfolding edge_ends contains any
edges_left-nil [] = omega arith
edges_left-nil ((j, vs) ∷ g) = omega (arith, edges_left-nil g, length-append vs (edge_ends g))

length-push_neighbors :
    (seen : List ℕ) (node depth : ℕ) (vs : List ℕ) (stack : List Entry)
    → length (push_neighbors seen node depth vs stack) ≤ length vs + length stack
unfolding push_neighbors
length-push_neighbors seen node depth [] stack = omega arith
length-push_neighbors seen node depth (v ∷ vs) stack =
    ground (arith, length-push_neighbors seen node depth vs stack)

module _ (g : Adjacency) where
  pub visit-stack :
      (s : Search) (e : Entry) (rest : List Entry)
      → (visit g s e rest).stack
        ≡ push_neighbors (e.node ∷ s.visited_set) e.node e.depth (targets g e.node) rest
  unfolding visit targets push_neighbors
  visit-stack s e rest = elim (Option-cases (get e.node g)) [
    | inl p ↦ simp (p, visit, targets, push_neighbors)
    | inr (vs, p) ↦ simp (p, visit, targets)
  ]

  abbrev work : Search → ℕ
  work s = edges_left s.visited_set g + length s.stack

  round-work :
      (s : Search) (e : Entry) (rest : List Entry)
      → work (round g s e rest) ≤ edges_left s.visited_set g + length rest
  unfolding round skip visit
  round-work s e rest = elim (Bool-cases (contains s.visited_set e.node)) [
    | inl p ↦ rw (p, round) (omega arith)
    | inr p ↦
        let seen = e.node ∷ s.visited_set in
        rw (p, round)
          (omega (
            arith,
            edges_left-cons e.node s.visited_set g p,
            length-push_neighbors seen e.node e.depth (targets g e.node) rest,
            ap length (visit-stack s e rest),
          ))
  ]

  loop_ends : (fuel : ℕ) (s : Search) → work s ≤ fuel → (t : Search) × (loop g fuel s ≡ some t)
  unfolding loop
  loop_ends zero s h = (s, ground arith)
  loop_ends (suc fuel) s h = elim (List-cases s.stack) [
    | inl empty ↦ (s, simp (empty, loop))
    | inr (e, rest, p) ↦
        let (t, ends) =
          loop_ends fuel (round g s e rest) (omega (arith, round-work s e rest, ap length p)) in
        (t, ground arith)
  ]

  -- What a round keeps holds at the end, where the stack is empty.
  pub loop_rule {ℓ} :
      (P : Search → Type ℓ)
      → ((s : Search) (e : Entry) (rest : List Entry)
          → s.stack ≡ e ∷ rest
          → P s
          → P (round g s e rest))
      → (fuel : ℕ) (s t : Search) → P s
      → loop g fuel s ≡ some t
      → P t × (t.stack ≡ [])
  unfolding loop
  loop_rule P keep zero s t p h = ground arith
  loop_rule P keep (suc fuel) s t p h = elim (List-cases s.stack) [
    | inl empty ↦ ground arith
    | inr (e, rest, q) ↦
        loop_rule P keep fuel (round g s e rest) t (keep s e rest q p) (rw (q, loop) at h)
  ]

-- The depth-first search from any node of any graph ends: as many rounds as the graph has edges, and
-- one, are enough.
pub dfs-returns : (g : Adjacency) (source : ℕ) → (t : Search) × (dfs g source ≡ some t)
unfolding dfs start
dfs-returns g source =
    loop_ends g (suc (length (edge_ends g))) (start source) (omega (arith, edges_left-nil g))
