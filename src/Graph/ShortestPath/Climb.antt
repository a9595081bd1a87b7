-- ===== src/Graph/ShortestPath/Climb.antt =====
-- The parents of the nodes that were found, and the way back to the source.
use angavu_intelligence_back.Common.{
  ℕ, zero, suc, ◌+◌, ◌≤◌, ◌≡◌, refl, subst, Option, some, none, List, [], ◌∷◌, ◌++◌, length,
  length-append, inl, inr, Option-cases, arith,
}
use mathlib.Core.List.{reverse, reverse-append}
use angavu_intelligence_back.Graph.{Adjacency, Search, get}
use angavu_intelligence_back.Graph.Walk.{Edge, Walk, here}
use angavu_intelligence_back.Graph.Level.{depth_of, AtLevel}
use angavu_intelligence_back.Graph.ShortestPath.{climb, reconstruct}

length-reverse : (xs : List ℕ) → length (reverse xs) ≡ length xs
length-reverse [] = refl
length-reverse (x ∷ xs) =
    let p : reverse (x ∷ xs) ≡ reverse xs ++ x ∷ [] = reverse-append (x ∷ []) xs in
    rw p (omega (arith, length-append (reverse xs) (x ∷ []), length-reverse xs))

-- A walk to `target` with the nodes that it passes.
pub data Route (g : Adjacency) (target : ℕ) : ℕ → List ℕ → Type 0 where
  arrived : {v : ℕ} → v ≡ target → Route g target v (v ∷ [])
  via : {v w : ℕ} {rest : List ℕ} → Edge g v w → Route g target w rest → Route g target v (v ∷ rest)

not_deeper : {o : Option ℕ} {d : ℕ} → o ≡ some 0 → o ≡ some (suc d) → ⊥
not_deeper p q = cc

suc-same : {o : Option ℕ} {a b : ℕ} → o ≡ some (suc a) → o ≡ some (suc b) → a ≡ b
suc-same p q = ground arith

climb_top :
    (parent : List (ℕ × ℕ)) (fuel current : ℕ) (path : List ℕ)
    → get current parent ≡ none
    → climb parent fuel current path ≡ some path
unfolding climb
climb_top parent zero current path h = rw (h, climb) refl
climb_top parent (suc fuel) current path h = rw (h, climb) refl

module _ (g : Adjacency) (source : ℕ) where
  -- The parents of the nodes that have a depth.
  pub record IsTree (s : Search) (parent : List (ℕ × ℕ)) : Type 0 where
    pub linked :
        (v u : ℕ)
        → get v parent ≡ some u
        → (d : ℕ) × (depth_of s u ≡ some d) × (depth_of s v ≡ some (suc d)) × Edge g u v
    pub rooted : (v d : ℕ) → depth_of s v ≡ some (suc d) → (u : ℕ) × (get v parent ≡ some u)
    pub bounded : (v d : ℕ) → depth_of s v ≡ some d → d ≤ length parent

  zero_steps : {v : ℕ} → Walk g source v 0 → v ≡ source
  zero_steps here = refl

  climb_lem :
      (target c : ℕ) (s : Search) (parent : List (ℕ × ℕ))
      → AtLevel g source c s
      → IsTree s parent
      → (fuel current d : ℕ) (path : List ℕ) → d ≤ fuel
      → depth_of s current ≡ some d
      → Route g target current (reverse path)
      → (full : List ℕ) × (climb parent fuel current path ≡ some full)
        × Route g target source (reverse full)
        × (length full ≡ d + length path)
  unfolding climb
  climb_lem target c s parent a t fuel current zero path le at r =
      elim (Option-cases (get current parent)) [
        | inl top ↦
            let here_source = zero_steps (a.sound current 0 at) in
            (
              path,
              climb_top parent fuel current path top,
              subst (λ v. Route g target v (reverse path)) here_source r,
              omega arith,
            )
        | inr (u, e) ↦ absurd (not_deeper at (t.linked current u e).2)
      ]
  climb_lem target c s parent a t zero current (suc d) path le at r = absurd (omega arith)
  climb_lem target c s parent a t (suc fuel) current (suc d) path le at r =
      let (u, e) = t.rooted current d at in
      let (f, at_u, at_current, edge) = t.linked current u e in
      let same : f ≡ d = suc-same at_current at in
      let (full, climbs, route, long) =
        climb_lem target c s parent a t fuel u d (path ++ u ∷ []) (omega arith)
          (subst (λ x. depth_of s u ≡ some x) same at_u)
          (rw (reverse-append path (u ∷ [])) (via edge r)) in
      (full, rw (e, climb) climbs, route, omega (arith, long, length-append path (u ∷ [])))

-- The path that is rebuilt for a node is a shortest one, as long as its depth says.
pub reconstruct-Route :
    (g : Adjacency) (source target c d : ℕ) (s : Search) (parent : List (ℕ × ℕ))
    → AtLevel g source c s
    → IsTree g source s parent
    → depth_of s target ≡ some d
    → (path : List ℕ) × (reconstruct target parent ≡ some (some path))
      × Route g target source path
      × (length path ≡ suc d)
unfolding reconstruct
reconstruct-Route g source target c d s parent a t at =
    let (full, climbs, route, long) =
      climb_lem g source target c s parent a t (length parent) target d (target ∷ [])
        (t.bounded target d at) at (arrived refl) in
    (reverse full, rw climbs refl, route, omega (arith, long, length-reverse full))
