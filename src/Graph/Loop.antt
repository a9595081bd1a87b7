-- ===== src/Graph/Loop.antt =====
-- The loop of `bfs` ends, and keeps what one round keeps.
use angavu_intelligence_back.Common.{
  ◌<◌, ℕ, zero, suc, ◌≤◌, ◌≡◌, refl, ap, sym, ◌∙◌, some, List, [], ◌∷◌, inl, inr, ◌⊎◌, length,
  Option-cases, arith,
}
use angavu_intelligence_back.Graph.{
  Adjacency, Search, get, scan, popped, expand, loop, start, bfs, edge_ends,
}
use angavu_intelligence_back.Graph.Walk.{targets, Memᴰ-edge_ends}
use angavu_intelligence_back.Graph.Step.{work, scan-work, unseen-le}

pub List-cases {ℓ} :
    {A : Type ℓ} (xs : List A) → (xs ≡ []) ⊎ ((x : A) × (rest : List A) × (xs ≡ x ∷ rest))
List-cases [] = inl refl
List-cases (x ∷ xs) = inr (x, xs, refl)

module _ (g : Adjacency) where
  pub expand-scan :
      (s : Search) (node depth : ℕ) (rest : List (ℕ × ℕ))
      → expand g s node depth rest ≡ scan node depth (popped s node rest) (targets g node)
  unfolding expand targets scan
  expand-scan s node depth rest = elim (Option-cases (get node g)) [
    | inl e ↦ simp (e, expand, targets, scan)
    | inr (vs, e) ↦ simp (e, expand, targets)
  ]

  expand-work :
      (s : Search) (node depth : ℕ) (rest : List (ℕ × ℕ))
      → work (edge_ends g) (expand g s node depth rest) ≤ work (edge_ends g) (popped s node rest)
  expand-work s node depth rest = rw (expand-scan s node depth rest) (
      scan-work (edge_ends g) node depth (popped s node rest) (targets g node)
        (Memᴰ-edge_ends g node))

  loop_ends :
      (fuel : ℕ) (s : Search)
      → work (edge_ends g) s ≤ fuel
      → (t : Search) × (loop g fuel s ≡ some t)
  unfolding loop popped
  loop_ends zero s h = (s, ground arith)
  loop_ends (suc fuel) s h = elim (List-cases s.queue) [
    | inl empty ↦ (s, simp (empty, loop))
    | inr ((node, depth), rest, e) ↦
        let (t, ends) =
          loop_ends fuel (expand g s node depth rest)
            (omega (arith, expand-work s node depth rest, ap length e)) in
        (t, ground arith)
  ]

  -- What a round keeps holds at the end, where the queue is empty.
  pub loop_rule {ℓ} :
      (P : Search → Type ℓ)
      → ((s : Search) (node depth : ℕ) (rest : List (ℕ × ℕ))
          → s.queue ≡ (node, depth) ∷ rest
          → P s
          → P (expand g s node depth rest))
      → (fuel : ℕ) (s t : Search) → P s
      → loop g fuel s ≡ some t
      → P t × (t.queue ≡ [])
  unfolding loop
  loop_rule P keep zero s t p h = ground arith
  loop_rule P keep (suc fuel) s t p h = elim (List-cases s.queue) [
    | inl empty ↦ ground arith
    | inr ((node, depth), rest, e) ↦
        loop_rule P keep fuel (expand g s node depth rest) t (keep s node depth rest e p)
          (rw (e, loop) at h)
  ]

-- The search from any node of any graph ends: as many rounds as the graph has edges, and one, are
-- enough.
pub bfs-returns : (g : Adjacency) (source : ℕ) → (t : Search) × (bfs g source ≡ some t)
unfolding bfs start
bfs-returns g source =
    loop_ends g (suc (length (edge_ends g))) (start g source)
      (omega (arith, unseen-le (source ∷ []) (edge_ends g)))

pub loop_empty : (g : Adjacency) (fuel : ℕ) (s : Search) → s.queue ≡ [] → loop g fuel s ≡ some s
unfolding loop
loop_empty g zero s empty = simp (empty, loop)
loop_empty g (suc fuel) s empty = simp (empty, loop)

-- More fuel changes nothing.
loop_more :
    (g : Adjacency) (fuel more : ℕ) (s t : Search)
    → fuel ≤ more
    → loop g fuel s ≡ some t
    → loop g more s ≡ some t
unfolding loop
loop_more g zero more s t le h = elim (List-cases s.queue) [
  | inl empty ↦ loop_empty g more s empty ∙ (sym (loop_empty g zero s empty) ∙ h)
  | inr ((node, depth), rest, e) ↦ absurd (ground arith)
]
loop_more g (suc fuel) zero s t le h = absurd (omega arith)
loop_more g (suc fuel) (suc more) s t le h = elim (List-cases s.queue) [
  | inl empty ↦ loop_empty g (suc more) s empty ∙ (sym (loop_empty g (suc fuel) s empty) ∙ h)
  | inr ((node, depth), rest, e) ↦
      rw (e, loop)
        (loop_more g fuel more (expand g s node depth rest) t (omega arith) (rw (e, loop) at h))
]

-- The `while` loop of the search ends, from any node of any graph: any number of rounds above the
-- number of edges gives the state that `bfs` returns, which is one with an empty queue.
pub loop-bfs :
    (g : Adjacency) (source rounds : ℕ)
    → length (edge_ends g) < rounds
    → (t : Search) × (bfs g source ≡ some t)
      × (loop g rounds (start g source) ≡ some t)
      × (t.queue ≡ [])
unfolding bfs
loop-bfs g source rounds h =
    let (t, e) = bfs-returns g source in
    (
      t,
      e,
      loop_more g (suc (length (edge_ends g))) rounds (start g source) t (omega arith) e,
      (loop_rule {0} g (λ _. Unit) (λ _ _ _ _ _ _. tt) (suc (length (edge_ends g))) (start g source)
          t tt e).1,
    )
