-- ===== src/Graph/Dfs/Reach.antt =====
-- `dfs` visits what `bfs` visits.
use angavu_intelligence_back.Common.{
  ℕ, suc, ◌≡◌, refl, subst, true, false, some, List, [], ◌∷◌, ◌↔◌, ◌⊎◌, inl, inr, length,
  Bool-cases, arith, any,
}
use mathlib.Core.Logic.{⊎_elim}
use mathlib.Core.List.{Memᴰ}
use mathlib.Core.List.Memᴰ
use angavu_intelligence_back.Graph.{Adjacency, get, contains, bfs, edge_ends}
use angavu_intelligence_back.Graph.Walk.{targets, Edge, Walk, here, step, Memᴰ-cons, Memᴰ-concat}
use angavu_intelligence_back.Graph.Distance.{bfs-Distance}
use angavu_intelligence_back.Graph
use angavu_intelligence_back.Graph.Dfs.{
  Search, Entry, push_neighbors, visit, skip, round, start, dfs,
}
use angavu_intelligence_back.Graph.Dfs.Loop.{loop_rule, visit-stack, dfs-returns}

abbrev nodes : List Entry → List ℕ
nodes [] = []
nodes (e ∷ es) = e.node ∷ nodes es

nodes-push_neighbors :
    (seen : List ℕ) (node depth : ℕ) (vs : List ℕ) (stack : List Entry) (w : ℕ)
    → Memᴰ w (nodes (push_neighbors seen node depth vs stack))
      ↔ (Memᴰ w vs × (contains seen w ≡ false) ⊎ Memᴰ w (nodes stack))
unfolding push_neighbors
nodes-push_neighbors seen node depth [] stack w =
    (inr, ⊎_elim (λ (m, _). absurd (Memᴰ.not-nil m)) (λ m. m))
nodes-push_neighbors seen node depth (v ∷ vs) stack w = ground (
  arith,
  nodes-push_neighbors seen node depth vs stack w,
  Memᴰ-cons w v vs,
  Memᴰ-cons w v (nodes (push_neighbors seen node depth vs stack)),
)

module _ (g : Adjacency) (source : ℕ) where
  -- The nodes that are visited or wait on the stack.
  abbrev Met : Search → ℕ → Type 0
  Met s v = Memᴰ v s.visited ⊎ Memᴰ v (nodes s.stack)

  record Inv (s : Search) : Type 0 where
    synced : (v : ℕ) → Memᴰ v s.visited ↔ (contains s.visited_set v ≡ true)
    origin : Met s source
    reached : (v : ℕ) → Met s v → (n : ℕ) × Walk g source v n
    closed : (u v : ℕ) → Memᴰ u s.visited → Edge g u v → Met s v

  waiting :
      (s : Search) (e : Entry) (rest : List Entry) (v : ℕ)
      → s.stack ≡ e ∷ rest
      → Memᴰ v (nodes s.stack) ↔ ((v ≡ e.node) ⊎ Memᴰ v (nodes rest))
  waiting s e rest v p = rw p (Memᴰ-cons v e.node (nodes rest))

  Inv-skip :
      (s : Search) (e : Entry) (rest : List Entry)
      → s.stack ≡ e ∷ rest
      → contains s.visited_set e.node ≡ true
      → Inv s
      → Inv (skip s e rest)
  unfolding skip
  Inv-skip s e rest p old h =
      let wait = λ (v : ℕ). waiting s e rest v p in
      let met : (v : ℕ) → Met s v → Met (skip s e rest) v =
        λ v m. ground (arith, wait v, h.synced v, m) in
      record {
        synced = h.synced;
        origin = met source h.origin;
        reached = λ v m. h.reached v (ground (arith, wait v, m));
        closed = λ u v m edge. met v (h.closed u v m edge);
      }

  Inv-visit :
      (s : Search) (e : Entry) (rest : List Entry)
      → s.stack ≡ e ∷ rest
      → contains s.visited_set e.node ≡ false
      → Inv s
      → Inv (visit g s e rest)
  unfolding visit contains any
  Inv-visit s e rest p new h =
      let s' = visit g s e rest in
      let wait = λ (v : ℕ). waiting s e rest v p in
      let seen = λ (v : ℕ). Memᴰ-concat v e.node s.visited in
      let pushed : (v : ℕ)
          → Memᴰ v (nodes s'.stack) ↔ (
              Memᴰ v (targets g e.node) × (contains (e.node ∷ s.visited_set) v ≡ false)
              ⊎ Memᴰ v (nodes rest)) =
        λ v. rw (visit-stack g s e rest) (
          nodes-push_neighbors (e.node ∷ s.visited_set) e.node e.depth (targets g e.node) rest v) in
      let synced : (v : ℕ) → Memᴰ v s'.visited ↔ (contains s'.visited_set v ≡ true) =
        λ v. ground (arith, seen v, h.synced v) in
      let walk = h.reached e.node (inr ((wait e.node).1 (inl refl))) in
      let met : (v : ℕ) → Met s v → Met s' v = λ v m. ground (arith, wait v, seen v, pushed v, m) in
      record {
        synced = λ v. synced v;
        origin = met source h.origin;
        reached = λ v m. elim m [
          | inl done ↦ elim ((seen v).0 done) [
            | inl old ↦ h.reached v (inl old)
            | inr q ↦ rw q walk
          ]
          | inr held ↦ elim ((pushed v).0 held) [
            | inl (edge, _) ↦ (suc walk.0, step walk.1 edge)
            | inr old ↦ h.reached v (inr ((wait v).1 (inr old)))
          ]
        ];
        closed = λ u v m edge. elim ((seen u).0 m) [
          | inl old ↦ met v (h.closed u v old edge)
          | inr q ↦
              let edge' : Edge g e.node v = subst (λ x. Edge g x v) q edge in
              elim (Bool-cases (contains s'.visited_set v)) [
                | inl known ↦ inl ((synced v).1 known)
                | inr fresh ↦ inr ((pushed v).1 (inl (edge', fresh)))
              ]
        ];
      }

  Inv-round :
      (s : Search) (e : Entry) (rest : List Entry)
      → s.stack ≡ e ∷ rest
      → Inv s
      → Inv (round g s e rest)
  unfolding round
  Inv-round s e rest p h = elim (Bool-cases (contains s.visited_set e.node)) [
    | inl old ↦ rw (old, round) (Inv-skip s e rest p old h)
    | inr new ↦ rw (new, round) (Inv-visit s e rest p new h)
  ]

  Inv-start : Inv (start source)
  unfolding start contains any
  Inv-start = record {
    synced = λ v. (λ m. absurd (Memᴰ.not-nil m), λ e. absurd (ground arith));
    origin = inr (Memᴰ.head refl);
    reached = λ v m. elim m [
      | inl never ↦ absurd (Memᴰ.not-nil never)
      | inr top ↦ (0, rw (Memᴰ.eq_of_singleton top) here)
    ];
    closed = λ u v m edge. absurd (Memᴰ.not-nil m);
  }

  settled : (t : Search) (v : ℕ) → t.stack ≡ [] → Met t v → Memᴰ v t.visited
  settled t v e (inl m) = m
  settled t v e (inr m) = absurd (Memᴰ.not-nil (rw e at m))

  complete : (t : Search) → Inv t → t.stack ≡ [] → {v n : ℕ} → Walk g source v n → Memᴰ v t.visited
  complete t h e here = settled t source e h.origin
  complete t h e (step {u} {v} w edge) = settled t v e (h.closed u v (complete t h e w) edge)

-- From any node of any graph both searches return, and the depth-first search visits exactly the nodes
-- that the breadth-first search visits.
pub dfs-bfs :
    (g : Adjacency) (source : ℕ)
    → (t : Search) × (b : Graph.Search) × (dfs g source ≡ some t)
      × (bfs g source ≡ some b)
      × ((v : ℕ) → Memᴰ v t.visited ↔ Memᴰ v b.visited)
unfolding dfs
dfs-bfs g source =
    let (t, e) = dfs-returns g source in
    let (b, e', depth, found, visited) = bfs-Distance g source in
    let (inv, empty) =
      loop_rule g (Inv g source) (Inv-round g source) (suc (length (edge_ends g))) (start source) t
        (Inv-start g source) e in
    (
      t,
      b,
      e,
      e',
      λ v. (
        λ m. let (n, w) = inv.reached v (inl m) in (visited v).1 (found v n w),
        λ m. let (d, p) = (visited v).0 m in complete g source t inv empty ((depth v d).0 p).0,
      ),
    )
