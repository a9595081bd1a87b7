-- ===== src/Graph/Topological/Order.antt =====
-- Topological orders, and the walks in a graph that has one.
use angavu_intelligence_back.Common.{
  map, ◌⊎◌, ℕ, suc, ◌≡◌, subst, true, false, List, [], ◌∷◌, any, ◌==◌, inl, inr, Bool-cases, arith,
}
use mathlib.Core.List.{Memᴰ}
use angavu_intelligence_back.Graph.{Adjacency, contains}
use angavu_intelligence_back.Graph.Walk.{Edge, Walk, here, step}

module _ (g : Adjacency) where
  -- A key of the map, or the end of an edge.
  abbrev pub IsNode : ℕ → Type 0
  IsNode v = Memᴰ v (map (λ e. e.0) g) ⊎ ((u : ℕ) × Edge g u v)

  -- No node stands twice, and every edge from a node of the list leads to a later one.
  abbrev pub IsTopological : List ℕ → Type 0
  IsTopological [] = Unit
  IsTopological (v ∷ vs) =
      ((w : ℕ) → Edge g v w → contains vs w ≡ true) × (contains vs v ≡ false) × IsTopological vs

  pub Edge-later :
      (vs : List ℕ) (v w : ℕ)
      → IsTopological vs
      → contains vs v ≡ true
      → Edge g v w
      → contains vs w ≡ true
  unfolding contains any
  Edge-later [] v w o m e = cc
  Edge-later (x ∷ vs) v w o m e = elim (Bool-cases (x == v)) [
    | inl same ↦
        let p : v ≡ x = ground arith in
        let later = o.0 w (subst (λ y. Edge g y w) p e) in ground arith
    | inr other ↦ let later = Edge-later vs v w o.2 (ground arith) e in ground arith
  ]

  Walk-later :
      (vs : List ℕ) (v : ℕ) {w n : ℕ}
      → IsTopological (v ∷ vs)
      → Walk g v w (suc n)
      → contains vs w ≡ true
  Walk-later vs v o (step here e) = o.0 _ e
  Walk-later vs v o (step (step walk d) e) =
      Edge-later vs _ _ o.2 (Walk-later vs v o (step walk d)) e

  pub no_return :
      (vs : List ℕ) (v : ℕ) {n : ℕ} → IsTopological vs → contains vs v ≡ true → ¬ Walk g v v (suc n)
  unfolding contains any
  no_return [] v o m walk = cc
  no_return (x ∷ vs) v {n} o m walk = elim (Bool-cases (x == v)) [
    | inl same ↦
        let p : v ≡ x = ground arith in
        let again = Walk-later vs x o (subst (λ y. Walk g y y (suc n)) p walk) in ground arith
    | inr other ↦ no_return vs v o.2 (ground arith) walk
  ]
