-- ===== src/Graph/Components/Classes.antt =====
-- `connected_components` of an undirected graph returns the classes of linked nodes.
use angavu_intelligence_back.Common.{
  ℕ, suc, ◌≡◌, refl, true, not, some, List, [], ◌∷◌, ◌++◌, ◌↔◌, ◌⊎◌, inl, inr, All, any, Bool-cases,
  arith,
}
use mathlib.Core.Logic.{⊎_elim}
use mathlib.Core.List.{Memᴰ}
use mathlib.Core.List.Memᴰ
use angavu_intelligence_back.Graph.{
  Adjacency, Search, get, contains, bfs, entry_push, add_undirected_edge,
}
use angavu_intelligence_back.Graph.Walk.{
  targets, Edge, Walk, here, step, Memᴰ-cons, Memᴰ-concat, Memᴰ-append,
}
use angavu_intelligence_back.Graph.Distance.{bfs-Distance}
use angavu_intelligence_back.Graph.Neighborhood.{Memᴰ-retain}
use angavu_intelligence_back.Graph.Components.{
  push_component, fresh, components_from, keys, connected_components,
}

module _ (g : Adjacency) where
  -- Every edge has one back, as where all were added by `add_undirected_edge`.
  abbrev pub IsUndirected : Type 0
  IsUndirected = (u v : ℕ) → Edge g u v → Edge g v u

  abbrev pub Linked : ℕ → ℕ → Type 0
  Linked u v = (n : ℕ) × Walk g u v n

  Linked-trans : {a b c n : ℕ} → Linked a b → Walk g b c n → Linked a c
  Linked-trans p here = p
  Linked-trans p (step w e) = let (n, q) = Linked-trans p w in (suc n, step q e)

  Linked-sym : {a b n : ℕ} → IsUndirected → Walk g a b n → Linked b a
  Linked-sym und here = (0, here)
  Linked-sym und (step {u} {v} w e) =
      let (n, q) = Linked-sym und w in Linked-trans (1, step here (und u v e)) q

  -- A component holds what is linked to any of its nodes.
  pub record IsComponent (c : List ℕ) : Type 0 where
    pub node : ℕ
    pub member : Memᴰ node c
    pub linked : (v : ℕ) → Memᴰ v c ↔ Linked node v

contains-Memᴰ : (vs : List ℕ) (v : ℕ) → (contains vs v ≡ true) ↔ Memᴰ v vs
unfolding contains any
contains-Memᴰ [] v = (λ h. absurd (ground (arith, h)), λ m. absurd (Memᴰ.not-nil m))
contains-Memᴰ (w ∷ vs) v = ground (arith, contains-Memᴰ vs v, Memᴰ-cons v w vs)

push_component-some :
    (c : List ℕ) (v : ℕ) (rest : List (List ℕ))
    → Memᴰ v c
    → push_component c (some rest) ≡ some (c ∷ rest)
unfolding push_component
push_component-some [] v rest m = absurd (Memᴰ.not-nil m)
push_component-some (w ∷ vs) v rest m = refl

All-mono {ℓ κ} :
    {A : Type ℓ} {P Q : A → Type κ} → ((a : A) → P a → Q a) → (xs : List A) → All P xs → All Q xs
All-mono f [] h = tt
All-mono f (x ∷ xs) (h, hs) = (f x h, All-mono f xs hs)

-- No node stands in two of the lists.
abbrev pub AreApart : List (List ℕ) → Type 0
AreApart [] = Unit
AreApart (c ∷ cs) = All (λ d. (v : ℕ) → Memᴰ v d → ¬ Memᴰ v c) cs × AreApart cs

module _ (g : Adjacency) (und : IsUndirected g) where
  abbrev IsClosed : List ℕ → Type 0
  IsClosed visited = (u v : ℕ) → Memᴰ u visited → Linked g u v → Memᴰ v visited

  record Split (nodes visited : List ℕ) (cs : List (List ℕ)) : Type 0 where
    parts : All (IsComponent g) cs
    total : (k : ℕ) → Memᴰ k nodes → Memᴰ k visited ⊎ (c : List ℕ) × Memᴰ c cs × Memᴰ k c
    outside : All (λ d. (v : ℕ) → Memᴰ v d → ¬ Memᴰ v visited) cs
    apart : AreApart cs

  -- What a search from a node adds, where nothing that is linked to it was visited.
  Memᴰ-fresh :
      (visited : List ℕ) (node : ℕ)
      → IsClosed visited
      → ¬ Memᴰ node visited
      → (t : Search) × (bfs g node ≡ some t)
        × ((v : ℕ) → Memᴰ v (fresh visited t.visited) ↔ Linked g node v)
  unfolding fresh
  Memᴰ-fresh visited node closed new =
      let (t, e, depth, found, known) = bfs-Distance g node in
      (
        t,
        e,
        λ v.
            let chosen = Memᴰ-retain (λ n. not (contains visited n)) v t.visited in
            (
              λ m. let (d, p) = (known v).0 (chosen.0 m).0 in (d, ((depth v d).0 p).0),
              λ (n, w).
                  let unseen : ¬ Memᴰ v visited = λ m. new (closed v node m (Linked-sym g und w)) in
                  chosen.1
                    ((known v).1 (found v n w), ground (arith, contains-Memᴰ visited v, unseen)),
            ),
      )

  components_from-Split :
      (nodes visited : List ℕ)
      → IsClosed visited
      → (cs : List (List ℕ)) × (components_from g nodes visited ≡ some cs) × Split nodes visited cs
  unfolding components_from
  components_from-Split [] visited closed = (
    [],
    refl,
    record { parts = tt; total = λ k m. absurd (Memᴰ.not-nil m); outside = tt; apart = tt },
  )
  components_from-Split (node ∷ nodes) visited closed = elim (Bool-cases (contains visited node)) [
    | inl old ↦
        let (cs, e, split) = components_from-Split nodes visited closed in
        (
          cs,
          rw (old, components_from) e,
          record {
            parts = split.parts;
            total = λ k m.
                ⊎_elim (λ p. inl (rw p ((contains-Memᴰ visited node).0 old))) (split.total k)
                  (Memᴰ.cases_cons m);
            outside = split.outside;
            apart = split.apart;
          },
        )
    | inr new ↦
        let unseen : ¬ Memᴰ node visited =
          λ m. absurd (ground (arith, contains-Memᴰ visited node, new, m)) in
        let (t, e, member) = Memᴰ-fresh visited node closed unseen in
        let c = fresh visited t.visited in
        let first = (member node).1 (0, here) in
        let both = λ (v : ℕ). Memᴰ-append v c visited in
        let closed' : IsClosed (c ++ visited) = λ u v m l. elim ((both u).0 m) [
          | inl a ↦ (both v).1 (inl ((member v).1 (Linked-trans g ((member u).0 a) l.1)))
          | inr b ↦ (both v).1 (inr (closed u v b l))
        ] in
        let (cs, e', split) = components_from-Split nodes (c ++ visited) closed' in
        (
          c ∷ cs,
          rw (new, components_from, e, e') (push_component-some c node cs first),
          record {
            parts = (record { node = node; member = first; linked = member }, split.parts);
            total = λ k m. elim (Memᴰ.cases_cons m) [
              | inl p ↦ inr (c, Memᴰ.head refl, rw p first)
              | inr later ↦ elim (split.total k later) [
                | inl seen ↦ elim ((both k).0 seen) [
                  | inl a ↦ inr (c, Memᴰ.head refl, a)
                  | inr b ↦ inl b
                ]
                | inr (d, in_cs, in_d) ↦ inr (d, Memᴰ.tail in_cs, in_d)
              ]
            ];
            outside = (
              λ v m seen. unseen (closed v node seen (Linked-sym g und ((member v).0 m).1)),
              All-mono (λ d f v m seen. f v m ((both v).1 (inr seen))) cs split.outside,
            );
            apart = (
              All-mono (λ d f v m here_too. f v m ((both v).1 (inl here_too))) cs split.outside,
              split.apart,
            );
          },
        )
  ]

-- Where every edge has one back, the components are returned; each of them is a node with all that is
-- linked to it, every node of the map stands in one, and no node stands in two.
pub connected_components-IsComponent :
    (g : Adjacency)
    → IsUndirected g
    → (cs : List (List ℕ)) × (connected_components g ≡ some cs)
      × All (IsComponent g) cs
      × ((k : ℕ) → Memᴰ k (keys g) → (c : List ℕ) × Memᴰ c cs × Memᴰ k c)
      × AreApart cs
unfolding connected_components
connected_components-IsComponent g und =
    let (cs, e, split) =
      components_from-Split g und (keys g) [] (λ u v m l. absurd (Memᴰ.not-nil m)) in
    (
      cs,
      e,
      split.parts,
      λ k m. ⊎_elim (λ none_yet. absurd (Memᴰ.not-nil none_yet)) (λ found. found) (split.total k m),
      split.apart,
    )

Edge-entry_push :
    (from to : ℕ) (g : Adjacency) (u v : ℕ)
    → Edge (entry_push from to g) u v ↔ (Edge g u v ⊎ (u ≡ from) × (v ≡ to))
unfolding entry_push targets get
Edge-entry_push from to [] u v = ground (arith, Memᴰ-cons v to [])
Edge-entry_push from to ((j, vs) ∷ g) u v =
    ground (arith, Edge-entry_push from to g u v, Memᴰ-concat v to vs)

-- An undirected edge that is added leaves a graph in which every edge has one back as such a graph.
pub add_undirected_edge-IsUndirected :
    (a b : ℕ) (g : Adjacency) → IsUndirected g → IsUndirected (add_undirected_edge a b g)
unfolding add_undirected_edge
add_undirected_edge-IsUndirected a b g und u v = ground (
  arith,
  Edge-entry_push b a (entry_push a b g) u v,
  Edge-entry_push b a (entry_push a b g) v u,
  Edge-entry_push a b g u v,
  Edge-entry_push a b g v u,
  und u v,
)
