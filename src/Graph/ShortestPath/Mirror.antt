-- ===== src/Graph/ShortestPath/Mirror.antt =====
-- The state of `shortest_path_bfs` beside that of `bfs`.
use angavu_intelligence_back.Common.{
  ℕ, suc, ◌≡◌, ◌∙◌, refl, sym, ap, subst, true, false, Option, some, none, List, [], ◌∷◌, ◌++◌, map,
  inl, inr, Bool-cases, ◌==◌, arith,
}
use mathlib.Core.List.{Memᴰ, map-append}
use angavu_intelligence_back.Graph.{Adjacency, Search, get, contains, found, offer, scan}
use angavu_intelligence_back.Graph.Walk.{Edge, step}
use angavu_intelligence_back.Graph.Level.{depth_of, AtLevel, unknown, offer-Scanned}
use angavu_intelligence_back.Graph.ShortestPath.{Trace, discover, discover_all}
use angavu_intelligence_back.Graph.ShortestPath.Climb.{IsTree}

depth_kept :
    (node c : ℕ) (s : Search) (v w d : ℕ)
    → depth_of s v ≡ none
    → depth_of s w ≡ some d
    → depth_of (found node c s v) w ≡ some d
unfolding found get
depth_kept node c s v w d new old = ground arith

depth_new : (node c : ℕ) (s : Search) (v : ℕ) → depth_of (found node c s v) v ≡ some (suc c)
unfolding found get
depth_new node c s v = ground arith

depth_other :
    (node c : ℕ) (s : Search) (v w : ℕ)
    → (v == w) ≡ false
    → depth_of (found node c s v) w ≡ depth_of s w
unfolding found get
depth_other node c s v w other = ground arith

get_other :
    (node v w : ℕ) (parent : List (ℕ × ℕ))
    → (v == w) ≡ false
    → get w ((v, node) ∷ parent) ≡ get w parent
unfolding get
get_other node v w parent other = ground arith

get_first :
    (node v w : ℕ) (parent : List (ℕ × ℕ))
    → (v == w) ≡ true
    → get w ((v, node) ∷ parent) ≡ some node
unfolding get
get_first node v w parent same = ground arith

some-eq : {o : Option ℕ} {a b : ℕ} → o ≡ some a → o ≡ some b → a ≡ b
some-eq p q = cc

==-eq : (v w : ℕ) → (v == w) ≡ true → v ≡ w
==-eq v w h = ground arith

discover_new :
    (node : ℕ) (p : Trace) (v : ℕ)
    → contains p.visited v ≡ false
    → discover node p v
      ≡ record { visited = v ∷ p.visited; parent = (v, node) ∷ p.parent; queue = p.queue ++ v ∷ [] }
unfolding discover
discover_new node p v h = rw (h, discover) refl

discover_old : (node : ℕ) (p : Trace) (v : ℕ) → contains p.visited v ≡ true → discover node p v ≡ p
unfolding discover
discover_old node p v h = rw (h, discover) refl

offer_new :
    (node c : ℕ) (s : Search) (v : ℕ)
    → contains s.visited_set v ≡ false
    → offer node c s v ≡ found node c s v
unfolding offer
offer_new node c s v h = rw (h, offer) refl

offer_old :
    (node c : ℕ) (s : Search) (v : ℕ) → contains s.visited_set v ≡ true → offer node c s v ≡ s
unfolding offer
offer_old node c s v h = rw (h, offer) refl

module _ (g : Adjacency) (source : ℕ) where
  IsTree-found :
      (node c : ℕ) (s : Search) (v : ℕ) (parent : List (ℕ × ℕ))
      → depth_of s v ≡ none
      → depth_of s node ≡ some c
      → Edge g node v
      → IsTree g source s parent
      → IsTree g source (found node c s v) ((v, node) ∷ parent)
  IsTree-found node c s v parent new at edge t = record {
    linked = λ w u h. elim (Bool-cases (v == w)) [
      | inl e ↦
          let w_eq = ==-eq v w e in
          let u_eq : node ≡ u = some-eq (get_first node v w parent e) h in
          (
            c,
            subst (λ x. depth_of (found node c s v) x ≡ some c) u_eq
                (depth_kept node c s v node c new at),
            subst (λ x. depth_of (found node c s v) x ≡ some (suc c)) w_eq (depth_new node c s v),
            subst (λ x. Edge g x w) u_eq (subst (λ x. Edge g node x) w_eq edge),
          )
      | inr e ↦
          let (d, at_u, at_w, old) = t.linked w u (sym (get_other node v w parent e) ∙ h) in
          (d, depth_kept node c s v u d new at_u, depth_kept node c s v w (suc d) new at_w, old)
    ];
    rooted = λ w d h. elim (Bool-cases (v == w)) [
      | inl e ↦ (node, get_first node v w parent e)
      | inr e ↦
          let (u, p) = t.rooted w d (sym (depth_other node c s v w e) ∙ h) in
          (u, get_other node v w parent e ∙ p)
    ];
    bounded = λ w d h. elim (Bool-cases (v == w)) [
      | inl e ↦
          let at_w : depth_of (found node c s v) w ≡ some (suc c) =
            subst (λ x. depth_of (found node c s v) x ≡ some (suc c)) (==-eq v w e)
              (depth_new node c s v) in
          omega (arith, some-eq h at_w, t.bounded node c at)
      | inr e ↦ omega (arith, t.bounded w d (sym (depth_other node c s v w e) ∙ h))
    ];
  }

  pub record Mirrors (p : Trace) (s : Search) : Type 0 where
    pub seen : p.visited ≡ s.visited_set
    pub queues : p.queue ≡ map (λ q. q.0) s.queue
    pub tree : IsTree g source s p.parent

  discover-Mirrors :
      (node c : ℕ) (p : Trace) (s : Search) (v : ℕ)
      → AtLevel g source c s
      → depth_of s node ≡ some c
      → Edge g node v
      → Mirrors p s
      → Mirrors (discover node p v) (offer node c s v)
  discover-Mirrors node c p s v a at edge m = elim (Bool-cases (contains s.visited_set v)) [
    | inl old ↦
        let old' = ap (λ l. contains l v) m.seen ∙ old in
        rw (discover_old node p v old', offer_old node c s v old) m
    | inr new ↦
        let new' = ap (λ l. contains l v) m.seen ∙ new in
        rw (discover_new node p v new', offer_new node c s v new)
          (record {
            seen = unfold found in ap (λ l. v ∷ l) m.seen;
            queues =
                unfold found in
                (ap (λ l. l ++ v ∷ []) m.queues
                  ∙ sym (map-append (λ q. q.0) s.queue ((v, suc c) ∷ [])));
            tree =
                IsTree-found node c s v p.parent (unknown g source s v a.synced new) at edge m.tree;
          })
  ]

  pub discover_all-Mirrors :
      (node c : ℕ) (p : Trace) (s : Search) (vs : List ℕ)
      → AtLevel g source c s
      → depth_of s node ≡ some c
      → ((v : ℕ) → Memᴰ v vs → Edge g node v)
      → Mirrors p s
      → Mirrors (discover_all node p vs) (scan node c s vs)
  unfolding discover_all scan
  discover_all-Mirrors node c p s [] a at edges m = m
  discover_all-Mirrors node c p s (v ∷ vs) a at edges m =
      let walk = step (a.sound node c at) (edges v (Memᴰ.head refl)) in
      let o = offer-Scanned g source node c s v walk a in
      discover_all-Mirrors node c (discover node p v) (offer node c s v) vs o.level
        (o.keeps node c at) (λ w k. edges w (Memᴰ.tail k))
        (discover-Mirrors node c p s v a at (edges v (Memᴰ.head refl)) m)
