-- ===== src/Graph/ShortestPath/Least.antt =====
-- The path that `shortest_path_bfs` returns, by the distances of `bfs`.
use angavu_intelligence_back.Common.{
  ℕ, zero, suc, ◌≤◌, ◌≡◌, ◌≢◌, ◌∙◌, ◌⊎◌, ◌==◌, refl, ap, subst, Option, some, none, List, [], ◌∷◌,
  map, length, inl, inr, Bool-cases, ==_iff, arith,
}
use mathlib.Core.List.{Memᴰ}
use mathlib.Core.List.Memᴰ
use angavu_intelligence_back.Graph.{Adjacency, Search, get, expand, loop, start, bfs, edge_ends}
use angavu_intelligence_back.Graph.Walk.{targets, Walk}
use angavu_intelligence_back.Graph.Loop.{List-cases, loop_empty}
use angavu_intelligence_back.Graph.Level.{depth_of}
use angavu_intelligence_back.Graph.Distance.{Inv, Inv-expand, Inv-start, bfs-Distance}
use angavu_intelligence_back.Graph.ShortestPath.{
  Trace, discover_all, search_loop, shortest_path_bfs,
}
use angavu_intelligence_back.Graph.ShortestPath.Climb.{Route, arrived, reconstruct-Route}
use angavu_intelligence_back.Graph.ShortestPath.Mirror.{Mirrors}
use angavu_intelligence_back.Graph.ShortestPath.Rounds.{
  at_node, expand_visits, expand-Mirrors, keeps_depth, search_loop-empty, search_loop-found,
  search_loop-next, same_state, differ,
}

module _ (g : Adjacency) (source target : ℕ) where
  -- What the loop gives, where the search of `bfs` goes on to `t`.
  data Ends (t : Search) (r : Option (Option (List ℕ))) : Type 0 where
    reaches :
        (path : List ℕ) (d : ℕ)
        → r ≡ some (some path)
        → Route g target source path
        → length path ≡ suc d
        → depth_of t target ≡ some d
        → Ends t r
    misses : r ≡ some none → ¬ Memᴰ target t.visited → Ends t r

  queue_head :
      (p : Trace) (s : Search) (node d : ℕ) (rest : List (ℕ × ℕ))
      → Mirrors g source p s
      → s.queue ≡ (node, d) ∷ rest
      → p.queue ≡ node ∷ map (λ q. q.0) rest
  queue_head p s node d rest m e = m.queues ∙ ap (map (λ q. q.0)) e

  -- The target stands at the front of the queue.
  target_found :
      (fuel : ℕ) (p : Trace) (s t : Search) (d : ℕ) (rest : List (ℕ × ℕ))
      → Inv g source s
      → Mirrors g source p s
      → s.queue ≡ (target, d) ∷ rest
      → loop g (suc fuel) s ≡ some t
      → Ends t (search_loop g target (suc fuel) p)
  target_found fuel p s t d rest i m e ends =
      let at = at_node g source s target d rest e i in
      let (path, returns, route, long) =
        reconstruct-Route g source target i.level.0 d s p.parent i.level.1 m.tree at in
      reaches path d
        (search_loop-found g target fuel p target (map (λ q. q.0) rest)
            (queue_head p s target d rest m e) ((==_iff target target).1 refl)
          ∙ returns)
        route long (keeps_depth g source (suc fuel) s t target d i at ends)

  loop_next :
      (fuel : ℕ) (s t : Search) (node d : ℕ) (rest : List (ℕ × ℕ))
      → s.queue ≡ (node, d) ∷ rest
      → loop g (suc fuel) s ≡ some t
      → loop g fuel (expand g s node d rest) ≡ some t
  unfolding loop
  loop_next fuel s t node d rest e ends = rw (e, loop) at ends

  loop_stuck :
      (s t : Search) (node d : ℕ) (rest : List (ℕ × ℕ))
      → s.queue ≡ (node, d) ∷ rest
      → loop g zero s ≢ some t
  unfolding loop
  loop_stuck s t node d rest e = ground arith

  search_over :
      (fuel : ℕ) (p : Trace) (s t : Search)
      → Mirrors g source p s
      → ¬ Memᴰ target s.visited
      → loop g fuel s ≡ some t
      → s.queue ≡ []
      → Ends t (search_loop g target fuel p)
  search_over fuel p s t m new ends empty =
      let same : s ≡ t = same_state (loop_empty g fuel s empty) ends in
      misses (search_loop-empty g target fuel p (m.queues ∙ ap (map (λ q. q.0)) empty))
        (subst (λ x. ¬ Memᴰ target x.visited) same new)

  search_loop-Ends :
      (fuel : ℕ) (p : Trace) (s t : Search)
      → Inv g source s
      → Mirrors g source p s
      → ¬ Memᴰ target s.visited
      → loop g fuel s ≡ some t
      → Ends t (search_loop g target fuel p)
  search_loop-Ends zero p s t i m new ends = elim (List-cases s.queue) [
    | inl empty ↦ search_over zero p s t m new ends empty
    | inr ((node, d), rest, e) ↦ absurd (loop_stuck s t node d rest e ends)
  ]
  search_loop-Ends (suc fuel) p s t i m new ends = elim (List-cases s.queue) [
    | inl empty ↦ search_over (suc fuel) p s t m new ends empty
    | inr ((node, d), rest, e) ↦ elim (Bool-cases (node == target)) [
      | inl found ↦
          target_found fuel p s t d rest i m
            (subst (λ x. s.queue ≡ (x, d) ∷ rest) ((==_iff node target).0 found) e) ends
      | inr other ↦
          let next = map (λ (q : ℕ × ℕ). q.0) rest in
          rw (search_loop-next g target fuel p node next (queue_head p s node d rest m e) other) (
            search_loop-Ends fuel (discover_all node (record p { queue = next }) (targets g node))
              (expand g s node d rest) t (Inv-expand g source s node d rest e i)
              (expand-Mirrors g source s node d rest e i p m)
              (expand_visits g source s node d rest e i target (differ node other) new)
              (loop_next fuel s t node d rest e ends))
    ]
  ]

  start-Mirrors :
      Mirrors g source
        (record { visited = source ∷ []; parent = []; queue = source ∷ [] })
        (start g source)
  unfolding start get
  start-Mirrors = record {
    seen = refl;
    queues = refl;
    tree = record {
      linked = λ v u h. cc;
      rooted = λ v d h. absurd (ground arith);
      bounded = λ v d h. ground arith;
    };
  }

-- Between any two nodes of any graph the search returns: where there is a walk from the source to the
-- target, a path of such a walk that has no more edges than any other; where there is none, no path.
pub shortest_path_bfs-Route :
    (g : Adjacency) (source target : ℕ)
    → ((path : List ℕ) × (shortest_path_bfs g source target ≡ some (some path))
        × Route g target source path
        × ((n : ℕ) → Walk g source target n → length path ≤ suc n))
      ⊎ ((shortest_path_bfs g source target ≡ some none) × ((n : ℕ) → ¬ Walk g source target n))
unfolding shortest_path_bfs bfs start
shortest_path_bfs-Route g source target = elim (Bool-cases (source == target)) [
  | inl same ↦
      inl (source ∷ [], rw (same) refl, arrived ((==_iff source target).0 same), λ n w. omega arith)
  | inr other ↦
      let (t, e, distance, walked, visits) = bfs-Distance g source in
      rw other
        (elim (search_loop-Ends g source target (suc (length (edge_ends g)))
          (record { visited = source ∷ []; parent = []; queue = source ∷ [] }) (start g source) t
          (Inv-start g source) (start-Mirrors g source target) (λ m. Memᴰ.not-nil m) e) [
            | reaches path d r route long at ↦
                inl (path, r, route, λ n w. omega (arith, long, ((distance target d).0 at).1 n w))
            | misses r none_at ↦ inr (r, λ n w. none_at ((visits target).1 (walked target n w)))
          ])
]
