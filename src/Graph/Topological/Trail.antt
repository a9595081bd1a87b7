-- ===== src/Graph/Topological/Trail.antt =====
-- The nodes on `rec_stack` are a trail: each is reached by an edge of the one below it.
use angavu_intelligence_back.Common.{
  ℕ, suc, ◌≡◌, subst, true, List, [], ◌∷◌, any, ◌==◌, inl, inr, Bool-cases, arith,
}
use angavu_intelligence_back.Graph.{Adjacency, contains}
use angavu_intelligence_back.Graph.Walk.{Edge, Walk, here, step}

module _ (g : Adjacency) where
  -- A walk that returns to where it starts.
  abbrev pub Cycle : Type 0
  Cycle = (v : ℕ) × (n : ℕ) × Walk g v v (suc n)

  abbrev pub Leads : List ℕ → ℕ → Type 0
  Leads [] v = Unit
  Leads (u ∷ _) v = Edge g u v

  abbrev pub IsTrail : List ℕ → Type 0
  IsTrail [] = Unit
  IsTrail (v ∷ vs) = Leads vs v × IsTrail vs

  pub Leads-Walk :
      (trail : List ℕ) (w v : ℕ)
      → IsTrail trail
      → Leads trail v
      → contains trail w ≡ true
      → (n : ℕ) × Walk g w v (suc n)
  unfolding contains any
  Leads-Walk [] w v t l m = cc
  Leads-Walk (x ∷ trail) w v t l m = elim (Bool-cases (x == w)) [
    | inl e ↦ let same : x ≡ w = ground arith in (0, step here (subst (λ y. Edge g y v) same l))
    | inr e ↦ let (n, walk) = Leads-Walk trail w x t.1 t.0 (ground arith) in (suc n, step walk l)
  ]
