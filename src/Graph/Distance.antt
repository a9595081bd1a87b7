-- ===== src/Graph/Distance.antt =====
-- The depths that `bfs` gives are the distances from its source.
use angavu_intelligence_back.Common.{
  ℕ, suc, ◌≤◌, ◌≡◌, refl, ap, subst, sym, Option, some, List, [], ◌∷◌, ◌↔◌, ◌⊎◌, inl, inr, length,
  arith,
}
use mathlib.Core.Logic.{⊎_elim}
use mathlib.Core.List.{Memᴰ}
use mathlib.Core.List.Memᴰ
use angavu_intelligence_back.Graph.{
  Adjacency, Search, get, scan, popped, expand, start, bfs, edge_ends,
}
use angavu_intelligence_back.Graph.Walk.{targets, Edge, Walk, here, step, Distance, Memᴰ-concat}
use angavu_intelligence_back.Graph.Step.{IsSorted}
use angavu_intelligence_back.Graph.Loop.{loop_rule, expand-scan, bfs-returns}
use angavu_intelligence_back.Graph.Level.{depth_of, AtLevel, scan-Scanned}

module _ (g : Adjacency) (source : ℕ) where
  -- From an expanded node every edge leads to a node that is at most one step deeper.
  pub record Inv (s : Search) : Type 0 where
    pub level : (c : ℕ) × AtLevel g source c s
    pub closed :
        (u v d : ℕ)
        → Memᴰ u s.visited
        → depth_of s u ≡ some d
        → Edge g u v
        → (f : ℕ) × (depth_of s v ≡ some f) × (f ≤ suc d)

  pub AtLevel-popped :
      (c : ℕ) (s : Search) (node d : ℕ) (rest : List (ℕ × ℕ))
      → s.queue ≡ (node, d) ∷ rest
      → AtLevel g source c s
      → AtLevel g source d (popped s node rest)
  unfolding popped IsSorted
  AtLevel-popped c s node d rest e h =
      let head = queued node d (rw e (Memᴰ.head refl)) in
      let at_front : (w f : ℕ) → Memᴰ (w, f) s.queue → (w ≡ node) ⊎ Memᴰ (w, f) rest =
        λ w f m. ⊎_elim (λ p. inl (ap (λ q. q.0) p)) inr (Memᴰ.cases_cons (rw e at m)) in
      let front = subst (IsSorted c) e sorted in
      record {
        synced = synced;
        origin = origin;
        sound = sound;
        queued = λ w f m. queued w f (rw e (Memᴰ.tail m));
        kept = λ w f p. ground (arith, at_front w f, Memᴰ-concat w node s.visited, kept w f);
        known = λ w m. elim ((Memᴰ-concat w node s.visited).0 m) [
          | inl old ↦ known w old
          | inr p ↦ (d, rw p head)
        ];
        low = λ w f p. omega (arith, low w f p, front.0);
        sorted = front.1;
      }
    where
      open h use {synced, origin, sound, queued, kept, known, low, sorted}

  same_depth : {o : Option ℕ} {a b : ℕ} → o ≡ some a → o ≡ some b → a ≡ b
  same_depth p q = cc

  pub Inv-expand :
      (s : Search) (node d : ℕ) (rest : List (ℕ × ℕ))
      → s.queue ≡ (node, d) ∷ rest
      → Inv s
      → Inv (expand g s node d rest)
  unfolding popped
  Inv-expand s node d rest e h =
      let (c, level) = h.level in
      let s' = popped s node rest in
      let after = AtLevel-popped c s node d rest e level in
      let at : depth_of s node ≡ some d = level.queued node d (rw e (Memᴰ.head refl)) in
      let in_visited = λ (u : ℕ). (Memᴰ-concat u node s.visited).0 in
      let scanned =
        scan-Scanned g source node d s' (targets g node) (λ v m. step (level.sound node d at) m)
          after in
      let t = scan node d s' (targets g node) in
      rw (expand-scan g s node d rest) (record {
        level = (d, scanned.level);
        closed = λ u v f m p edge. elim (in_visited u (rw scanned.same at m)) [
          | inl old ↦
              let (b, q) = level.known u old in
              let (a, r, near) = h.closed u v b old q edge in
              (a, scanned.keeps v a r, omega (arith, same_depth p (scanned.keeps u b q)))
          | inr new ↦
              let (a, r) = scanned.finds v (subst (λ x. Edge g x v) new edge) in
              let f_eq =
                same_depth p
                  (subst (λ x. depth_of t x ≡ some d) (sym new) (scanned.keeps node d at)) in
              (a, r, omega (arith, scanned.level.low v a r, f_eq))
        ];
      })

  at_start : (v d : ℕ) → depth_of (start g source) v ≡ some d → (v ≡ source) × (d ≡ 0)
  unfolding start get
  at_start v d p = ground arith

  pub Inv-start : Inv (start g source)
  unfolding start get IsSorted
  Inv-start = record {
    level = (
      0,
      record {
        synced = refl;
        origin = ground arith;
        sound = λ v d p. let (a, b) = at_start v d p in rw (a, b) here;
        queued = λ v d m.
            let p : (v, d) ≡ (source, 0) = Memᴰ.eq_of_singleton m in
            rw (ap (λ q. q.0) p, ap (λ q. q.1) p) (ground arith);
        kept = λ v d p. let (a, b) = at_start v d p in inr (rw (a, b) (Memᴰ.head refl));
        known = λ v m. absurd (Memᴰ.not-nil m);
        low = λ v d p. ground arith;
        sorted = (omega arith, tt);
      },
    );
    closed = λ u v d m p edge. absurd (Memᴰ.not-nil m);
  }

  settled :
      (t : Search) → Inv t → t.queue ≡ [] → (v d : ℕ) → depth_of t v ≡ some d → Memᴰ v t.visited
  settled t h e v d p =
      ⊎_elim (λ m. m) (λ m. absurd (Memᴰ.not-nil (rw e at m))) (h.level.1.kept v d p)

  -- Once the queue is empty, no walk is shorter than the depth.
  shortest :
      (t : Search)
      → Inv t
      → t.queue ≡ []
      → {v n : ℕ} → Walk g source v n
      → (d : ℕ) × (depth_of t v ≡ some d) × (d ≤ n)
  shortest t h e here = (0, h.level.1.origin, omega arith)
  shortest t h e (step {u} {v} {n} w edge) =
      let (d, p, le) = shortest t h e w in
      let (f, q, near) = h.closed u v d (settled t h e u d p) p edge in (f, q, omega arith)

-- From any node of any graph the search returns, and the depth that it gives to a node is the length
-- of the shortest walks to it; every node with a walk gets one. The nodes it visits are those that
-- have one.
pub bfs-Distance :
    (g : Adjacency) (source : ℕ)
    → (t : Search) × (bfs g source ≡ some t)
      × ((v d : ℕ) → (get v t.depths ≡ some d) ↔ Distance g source v d)
      × ((v n : ℕ) → Walk g source v n → (d : ℕ) × (get v t.depths ≡ some d))
      × ((v : ℕ) → Memᴰ v t.visited ↔ ((d : ℕ) × (get v t.depths ≡ some d)))
unfolding bfs
bfs-Distance g source =
    let (t, e) = bfs-returns g source in
    let (inv, empty) =
      loop_rule g (Inv g source) (Inv-expand g source) (suc (length (edge_ends g))) (start g source)
        t (Inv-start g source) e in
    let level = inv.level.1 in
    (
      t,
      e,
      λ v d. (
        λ p. (
          level.sound v d p,
          λ n w.
              let (f, q, le) = shortest g source t inv empty w in
              omega (arith, same_depth g source p q, le),
        ),
        λ (w, least).
            let (f, q, le) = shortest g source t inv empty w in
            let near = least f (level.sound v f q) in
            subst (λ x. get v t.depths ≡ some x) (omega (arith, near, le)) q,
      ),
      λ v n w. let (f, q, _) = shortest g source t inv empty w in (f, q),
      λ v. (level.known v, λ (d, p). settled g source t inv empty v d p),
    )
