-- ===== src/Graph/Topological/Search.antt =====
-- What a call of `topo_dfs` ends with.
use angavu_intelligence_back.Common.{
  ℕ, zero, suc, ◌≡◌, ◌≤◌, refl, sym, subst, Bool, true, false, Option, some, List, [], ◌∷◌, inl,
  inr, Bool-cases, arith,
}
use mathlib.Core.List.{Memᴰ}
use mathlib.Core.List.Memᴰ
use angavu_intelligence_back.Graph.{Adjacency, contains}
use angavu_intelligence_back.Graph.Walk.{targets, Memᴰ-edge_ends}
use angavu_intelligence_back.Graph.Step.{unseen, unseen-cons_lt}
use angavu_intelligence_back.Graph.Topological.{
  Sorting, enter, leave, sort_neighbors, topo_dfs, nodes, if_true,
}
use angavu_intelligence_back.Graph.Topological.Members.{unseen_mono, present_left, contains-last}
use angavu_intelligence_back.Graph.Topological.Order.{IsNode}
use angavu_intelligence_back.Graph.Topological.Trail.{Leads, Leads-Walk}
use angavu_intelligence_back.Graph.Topological.Visit.{
  Returns-map, Returns-if_true, IsSearching, After, Returns, cyclic, clean, After-trans,
  enter-IsSearching, leave-After,
}

module _ (g : Adjacency) where
  -- What a call for `node` leaves behind.
  abbrev pub Visited : ℕ → Sorting → Sorting → Type 0
  Visited node s t = After g s t × (contains t.stack node ≡ true)

  -- A call that does what it promises wherever at most `n` nodes are not visited.
  abbrev Works : ℕ → (ℕ → Sorting → Option (Bool × Sorting)) → Type 0
  Works n visit =
      (v : ℕ) (s : Sorting)
      → IsSearching g s
      → contains s.visited v ≡ false
      → IsNode g v
      → Leads g s.rec_stack v
      → unseen s.visited (nodes g) ≤ n
      → Returns g (Visited v s) (visit v s)

  pub After-refl : (s : Sorting) → IsSearching g s → After g s s
  After-refl s i = record { searching = i; trails = refl; keeps = λ v h. h; done = λ v h. h }

  Neighbors : List ℕ → Sorting → Sorting → Type 0
  Neighbors vs s t = After g s t × ((w : ℕ) → Memᴰ w vs → contains t.stack w ≡ true)

  -- The first neighbour is done, and the others are visited after it.
  first_done :
      (v : ℕ) (vs : List ℕ) (s t u : Sorting)
      → Visited v s t
      → Neighbors vs t u
      → Neighbors (v ∷ vs) s u
  unfolding Neighbors
  first_done v vs s t u (a, d) (b, all) = (
    After-trans g s t u a b,
    λ w m. elim m [ Memᴰ.head p ↦ rw p (b.done v d) | Memᴰ.tail k ↦ all w k ],
  )

  sort_neighbors-new :
      (visit : ℕ → Sorting → Option (Bool × Sorting)) (v : ℕ) (vs : List ℕ) (s : Sorting)
      → contains s.visited v ≡ false
      → sort_neighbors visit (v ∷ vs) s ≡ if_true (visit v s) (sort_neighbors visit vs)
  unfolding sort_neighbors
  sort_neighbors-new visit v vs s new = rw (new, sort_neighbors) refl

  sort_neighbors-back :
      (visit : ℕ → Sorting → Option (Bool × Sorting)) (v : ℕ) (vs : List ℕ) (s : Sorting)
      → contains s.visited v ≡ true
      → contains s.rec_stack v ≡ true
      → sort_neighbors visit (v ∷ vs) s ≡ some (false, s)
  unfolding sort_neighbors
  sort_neighbors-back visit v vs s old waits = ground arith

  sort_neighbors-done :
      (visit : ℕ → Sorting → Option (Bool × Sorting)) (v : ℕ) (vs : List ℕ) (s : Sorting)
      → contains s.visited v ≡ true
      → contains s.rec_stack v ≡ false
      → sort_neighbors visit (v ∷ vs) s ≡ sort_neighbors visit vs s
  unfolding sort_neighbors
  sort_neighbors-done visit v vs s old closed = ground arith

  sort_neighbors-Returns :
      (n : ℕ) (visit : ℕ → Sorting → Option (Bool × Sorting))
      → Works n visit
      → (vs : List ℕ) (s : Sorting) → IsSearching g s
      → ((w : ℕ) → Memᴰ w vs → IsNode g w × Leads g s.rec_stack w)
      → unseen s.visited (nodes g) ≤ n
      → Returns g (Neighbors vs s) (sort_neighbors visit vs s)
  unfolding Neighbors
  sort_neighbors-Returns n visit works [] s i all le =
      clean s (unfold sort_neighbors in refl) (After-refl s i, λ w m. absurd (Memᴰ.not-nil m))
  sort_neighbors-Returns n visit works (v ∷ vs) s i all le =
      elim (Bool-cases (contains s.visited v)) [
        | inr new ↦ rw (sort_neighbors-new visit v vs s new) (
            Returns-if_true g (Visited v s) (Neighbors (v ∷ vs) s) (visit v s)
              (sort_neighbors visit vs)
              (works v s i new (all v (Memᴰ.head refl)).0 (all v (Memᴰ.head refl)).1 le)
              (λ t h.
                Returns-map g (Neighbors vs t) (Neighbors (v ∷ vs) s) (sort_neighbors visit vs t)
                  (sort_neighbors-Returns n visit works vs t h.0.searching
                    (λ w m. (
                      (all w (Memᴰ.tail m)).0,
                      subst (λ r. Leads g r w) (sym h.0.trails) (all w (Memᴰ.tail m)).1,
                    ))
                    (omega (arith, unseen_mono s.visited t.visited (nodes g) h.0.keeps)))
                  (λ u q. first_done v vs s t u h q)))
        | inl old ↦ elim (Bool-cases (contains s.rec_stack v)) [
          | inl open_node ↦
              let (k, walk) =
                Leads-Walk g s.rec_stack v v i.trail (all v (Memᴰ.head refl)).1 open_node in
              cyclic s (sort_neighbors-back visit v vs s old open_node) (v, k, walk)
          | inr closed ↦
              let finished = present_left _ _ _ (i.split v) old closed in
              rw (sort_neighbors-done visit v vs s old closed) (
                Returns-map g (Neighbors vs s) (Neighbors (v ∷ vs) s) (sort_neighbors visit vs s)
                  (sort_neighbors-Returns n visit works vs s i (λ w m. all w (Memᴰ.tail m)) le)
                  (λ u q. first_done v vs s s u (After-refl s i, finished) q))
        ]
      ]

  IsNode-nodes : (v : ℕ) → IsNode g v → Memᴰ v (nodes g)
  IsNode-nodes v (inl key) = Memᴰ.append_left _ key
  IsNode-nodes v (inr (u, e)) = Memᴰ.append_right _ (Memᴰ-edge_ends g u v e)

  pub topo_dfs-Works : (fuel : ℕ) → Works fuel (topo_dfs g fuel)
  unfolding topo_dfs
  topo_dfs-Works zero v s i new m leads le =
      absurd (omega (arith, unseen-cons_lt v s.visited (nodes g) new (IsNode-nodes v m)))
  topo_dfs-Works (suc fuel) v s i new m leads le =
      let entered = enter-IsSearching g v s i new m leads in
      Returns-if_true g (Neighbors (targets g v) (enter v s)) (Visited v s)
        (sort_neighbors (topo_dfs g fuel) (targets g v) (enter v s)) (λ t. some (true, leave v t))
        (sort_neighbors-Returns fuel (topo_dfs g fuel) (topo_dfs-Works fuel) (targets g v)
          (enter v s) entered (λ w e. (inr (v, e), unfold enter in e))
          (unfold enter in
            omega (arith, unseen-cons_lt v s.visited (nodes g) new (IsNode-nodes v m))))
        (λ t h. clean (leave v t) refl (
          leave-After g v s t i new (unfold Neighbors in h.0) (unfold Neighbors in h.1),
          unfold leave in contains-last v t.stack,
        ))
