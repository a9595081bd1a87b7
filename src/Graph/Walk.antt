-- ===== src/Graph/Walk.antt =====
-- The graph as the searches see it: edges, and walks with their lengths.
use angavu_intelligence_back.Common.{
  ℕ, suc, ◌≤◌, ◌≡◌, none, some, List, [], ◌∷◌, ◌++◌, ◌↔◌, ◌⊎◌, inl, inr, arith,
}
use mathlib.Core.Logic.{⊎_elim}
use mathlib.Core.List.{Memᴰ}
use mathlib.Core.List.Memᴰ
use angavu_intelligence_back.Graph.{Adjacency, get, edge_ends}

unfoldable pub targets : Adjacency → ℕ → List ℕ
targets g u = elim (get u g) [ none ↦ [] | some vs ↦ vs ]

abbrev pub Edge : Adjacency → ℕ → ℕ → Type 0
Edge g u v = Memᴰ v (targets g u)

-- The walks from `source`, by their lengths.
pub data Walk (g : Adjacency) (source : ℕ) : ℕ → ℕ → Type 0 where
  here : Walk g source source 0
  step : {u v n : ℕ} → Walk g source u n → Edge g u v → Walk g source v (suc n)

-- The shortest walks to `v` have length `d`.
abbrev pub Distance : Adjacency → ℕ → ℕ → ℕ → Type 0
Distance g source v d = Walk g source v d × ((n : ℕ) → Walk g source v n → d ≤ n)

module _ {ℓ} {A : Type ℓ} where
  pub Memᴰ-cons : (a x : A) (xs : List A) → Memᴰ a (x ∷ xs) ↔ ((a ≡ x) ⊎ Memᴰ a xs)
  Memᴰ-cons a x xs = (Memᴰ.cases_cons, ⊎_elim Memᴰ.head Memᴰ.tail)

  pub Memᴰ-concat : (a x : A) (xs : List A) → Memᴰ a (xs ++ x ∷ []) ↔ (Memᴰ a xs ⊎ (a ≡ x))
  Memᴰ-concat a x xs = (
    λ m. ⊎_elim inl (λ last. inr (Memᴰ.eq_of_singleton last)) (Memᴰ.append_cases xs m),
    ⊎_elim (Memᴰ.append_left _) (λ e. Memᴰ.append_right xs (Memᴰ.head e)),
  )

  pub Memᴰ-append : (a : A) (xs ys : List A) → Memᴰ a (xs ++ ys) ↔ (Memᴰ a xs ⊎ Memᴰ a ys)
  Memᴰ-append a xs ys = (Memᴰ.append_cases xs, ⊎_elim (Memᴰ.append_left ys) (Memᴰ.append_right xs))

pub Memᴰ-edge_ends : (g : Adjacency) (u v : ℕ) → Edge g u v → Memᴰ v (edge_ends g)
unfolding edge_ends targets get
Memᴰ-edge_ends [] u v e = e
Memᴰ-edge_ends ((j, vs) ∷ g) u v e =
    ground (arith, Memᴰ-append v vs (edge_ends g), Memᴰ-edge_ends g u v)
