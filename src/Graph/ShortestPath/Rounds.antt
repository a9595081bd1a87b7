-- ===== src/Graph/ShortestPath/Rounds.antt =====
-- A round of `shortest_path_bfs` beside the round of `bfs`.
use angavu_intelligence_back.Common.{
  ℕ, zero, suc, ◌≡◌, ◌≢◌, ◌∙◌, ◌==◌, refl, ap, subst, true, false, Option, some, none, List, [],
  ◌∷◌, ◌++◌, map, arith,
}
use mathlib.Core.Logic.{⊎_elim}
use mathlib.Core.List.{Memᴰ}
use angavu_intelligence_back.Graph.{Adjacency, Search, expand, loop, popped, scan}
use angavu_intelligence_back.Graph.Walk.{targets, step, Memᴰ-concat}
use angavu_intelligence_back.Graph.Loop.{loop_rule, expand-scan}
use angavu_intelligence_back.Graph.Level.{depth_of, AtLevel, scan-Scanned, Scanned}
use angavu_intelligence_back.Graph.Distance.{Inv, AtLevel-popped, Inv-expand}
use angavu_intelligence_back.Graph.ShortestPath.{Trace, discover_all, reconstruct, search_loop}
use angavu_intelligence_back.Graph.ShortestPath.Mirror.{Mirrors, discover_all-Mirrors}

module _ (g : Adjacency) (source : ℕ) where
  -- A round of `bfs`, at a state with a queue.
  module _ (s : Search) (node d : ℕ) (rest : List (ℕ × ℕ)) (e : s.queue ≡ (node, d) ∷ rest)
      (i : Inv g source s) where
    after_pop : AtLevel g source d (popped s node rest)
    after_pop = AtLevel-popped g source i.level.0 s node d rest e i.level.1

    pub at_node : depth_of s node ≡ some d
    at_node = i.level.1.queued node d (rw e (Memᴰ.head refl))

    scanned :
        Scanned g source d
          (popped s node rest)
          (targets g node)
          (scan node d (popped s node rest) (targets g node))
    scanned =
        scan-Scanned g source node d (popped s node rest) (targets g node)
          (λ v m. step (i.level.1.sound node d at_node) m) after_pop

    expand_keeps : (w f : ℕ) → depth_of s w ≡ some f → depth_of (expand g s node d rest) w ≡ some f
    unfolding popped
    expand_keeps w f h = rw (expand-scan g s node d rest) (scanned.keeps w f h)

    pub expand_visits :
        (w : ℕ) → w ≢ node → ¬ Memᴰ w s.visited → ¬ Memᴰ w (expand g s node d rest).visited
    unfolding popped
    expand_visits w other new m =
        let visits : (expand g s node d rest).visited ≡ s.visited ++ node ∷ [] =
          ap (λ (x : Search). x.visited) (expand-scan g s node d rest) ∙ scanned.same in
        ⊎_elim new other ((Memᴰ-concat w node s.visited).0 (subst (Memᴰ w) visits m))

    pub expand-Mirrors :
        (p : Trace)
        → Mirrors g source p s
        → Mirrors g source
            (discover_all node (record p { queue = map (λ q. q.0) rest }) (targets g node))
            (expand g s node d rest)
    unfolding popped
    expand-Mirrors p m = rw (expand-scan g s node d rest) (
        discover_all-Mirrors g source node d (record p { queue = map (λ q. q.0) rest })
          (popped s node rest) (targets g node) after_pop at_node (λ v k. k)
          (record {
            seen = m.seen;
            queues = refl;
            tree = record {
              linked = m.tree.linked;
              rooted = m.tree.rooted;
              bounded = m.tree.bounded;
            };
          }))

  pub keeps_depth :
      (fuel : ℕ) (s t : Search) (w f : ℕ)
      → Inv g source s
      → depth_of s w ≡ some f
      → loop g fuel s ≡ some t
      → depth_of t w ≡ some f
  keeps_depth fuel s t w f i at ends =
      (loop_rule g (λ x. Inv g source x × (depth_of x w ≡ some f))
        (λ x node d rest e h.
          (Inv-expand g source x node d rest e h.0, expand_keeps x node d rest e h.0 w f h.1))
        fuel s t (i, at) ends).0.1

pub same_state : {o : Option Search} {s t : Search} → o ≡ some s → o ≡ some t → s ≡ t
same_state p q = cc

pub differ : (a : ℕ) {b : ℕ} → (a == b) ≡ false → b ≢ a
differ a h e = ground arith

module _ (g : Adjacency) (target : ℕ) where
  pub search_loop-empty :
      (fuel : ℕ) (p : Trace) → p.queue ≡ [] → search_loop g target fuel p ≡ some none
  unfolding search_loop
  search_loop-empty zero p e = simp (e, search_loop)
  search_loop-empty (suc fuel) p e = simp (e, search_loop)

  pub search_loop-found :
      (fuel : ℕ) (p : Trace) (node : ℕ) (rest : List ℕ)
      → p.queue ≡ node ∷ rest
      → (node == target) ≡ true
      → search_loop g target (suc fuel) p ≡ reconstruct target p.parent
  unfolding search_loop
  search_loop-found fuel p node rest e h = ground arith

  pub search_loop-next :
      (fuel : ℕ) (p : Trace) (node : ℕ) (rest : List ℕ)
      → p.queue ≡ node ∷ rest
      → (node == target) ≡ false
      → search_loop g target (suc fuel) p
        ≡ search_loop g target fuel (discover_all node (record p { queue = rest }) (targets g node))
  unfolding search_loop
  search_loop-next fuel p node rest e h = ground arith
