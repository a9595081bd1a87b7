-- ===== src/Graph/Neighborhood.antt =====
-- What `k_hop_neighborhood` selects.
use angavu_intelligence_back.Common.{
  ℕ, ◌≤◌, ◌≡◌, refl, Bool, true, some, List, [], ◌∷◌, ◌↔◌, retain, leb→le, le→leb, arith,
}
use mathlib.Core.List.{Memᴰ}
use mathlib.Core.List.Memᴰ
use angavu_intelligence_back.Graph.{Adjacency, within, k_hop_neighborhood}
use angavu_intelligence_back.Graph.Walk.{Walk, Memᴰ-cons}
use angavu_intelligence_back.Graph.Distance.{bfs-Distance}

pub Memᴰ-retain :
    (p : ℕ → Bool) (a : ℕ) (xs : List ℕ) → Memᴰ a (retain p xs) ↔ Memᴰ a xs × (p a ≡ true)
unfolding retain
Memᴰ-retain p a [] = (λ m. absurd (Memᴰ.not-nil m), λ (m, _). absurd (Memᴰ.not-nil m))
Memᴰ-retain p a (x ∷ xs) =
    ground (arith, Memᴰ-retain p a xs, Memᴰ-cons a x xs, Memᴰ-cons a x (retain p xs))

-- A list of the neighbourhood is returned, and holds exactly the nodes that some walk of at most `k`
-- edges reaches from the source.
pub k_hop_neighborhood-Walk :
    (g : Adjacency) (source k : ℕ)
    → (l : List ℕ) × (k_hop_neighborhood g source k ≡ some l)
      × ((v : ℕ) → Memᴰ v l ↔ ((n : ℕ) × Walk g source v n × (n ≤ k)))
unfolding k_hop_neighborhood within
k_hop_neighborhood-Walk g source k =
    let (t, e, depth, found, visited) = bfs-Distance g source in
    (
      retain (within k t) t.visited,
      rw (e, k_hop_neighborhood) refl,
      λ v.
          let chosen = Memᴰ-retain (within k t) v t.visited in
          (
            λ m.
                let (old, near) = chosen.0 m in
                let (d, p) = (visited v).0 old in
                (d, ((depth v d).0 p).0, leb→le d k (rw (p, within) at near)),
            λ (n, w, le).
                let (d, p) = found v n w in
                let near = ((depth v d).0 p).1 n w in
                chosen.1
                  ((visited v).1 (d, p), rw (p, within) (le→leb d k (omega (arith, near, le)))),
          ),
    )
