-- ===== src/Graph/Topological/Keys.antt =====
-- What the loop over the keys in `topological_sort` ends with.
use angavu_intelligence_back.Common.{
  subst, ℕ, ◌≡◌, ◌≤◌, ◌∙◌, refl, ap, true, false, List, [], ◌∷◌, map, length, any, ◌==◌, inl, inr,
  Bool-cases, arith,
}
use mathlib.Core.List.{Memᴰ}
use mathlib.Core.List.Memᴰ
use angavu_intelligence_back.Graph.{Adjacency, contains, get}
use angavu_intelligence_back.Graph.Walk.{Edge, targets}
use angavu_intelligence_back.Graph.Step.{unseen-le}
use angavu_intelligence_back.Graph.Topological.{Sorting, if_true, topo_dfs, sort_from, nodes}
use angavu_intelligence_back.Graph.Topological.Members.{present_left}
use angavu_intelligence_back.Graph.Topological.Order.{IsNode}
use angavu_intelligence_back.Graph.Topological.Visit.{
  IsSearching, After, Returns, clean, After-trans, Returns-if_true, Returns-map,
}
use angavu_intelligence_back.Graph.Topological.Search.{After-refl, Visited, topo_dfs-Works}

abbrev pub empty : Sorting
empty = record { visited = []; stack = []; rec_stack = [] }

targets-other :
    (j u : ℕ) (vs : List ℕ) (g : Adjacency)
    → (j == u) ≡ false
    → targets ((j, vs) ∷ g) u ≡ targets g u
unfolding targets get
targets-other j u vs g h = ground arith

no_target : (u v : ℕ) → ¬ Edge [] u v
unfolding targets get
no_target u v e = Memᴰ.not-nil e

pub from_key : (g : Adjacency) (u v : ℕ) → Edge g u v → Memᴰ u (map (λ e. e.0) g)
from_key [] u v e = absurd (no_target u v e)
from_key ((j, vs) ∷ g) u v e = elim (Bool-cases (j == u)) [
  | inl same ↦ Memᴰ.head (ground arith)
  | inr other ↦ Memᴰ.tail (from_key g u v (subst (Memᴰ v) (targets-other j u vs g other) e))
]

module _ (g : Adjacency) where
  abbrev pub Sorted : List ℕ → Sorting → Sorting → Type 0
  Sorted ks s t = After g s t × ((w : ℕ) → Memᴰ w ks → contains t.stack w ≡ true)

  sort_from-skip :
      (fuel node : ℕ) (rest : List ℕ) (s : Sorting)
      → contains s.visited node ≡ true
      → sort_from g fuel (node ∷ rest) s ≡ sort_from g fuel rest s
  unfolding sort_from
  sort_from-skip fuel node rest s h = rw (h, sort_from) refl

  sort_from-visit :
      (fuel node : ℕ) (rest : List ℕ) (s : Sorting)
      → contains s.visited node ≡ false
      → sort_from g fuel (node ∷ rest) s ≡ if_true (topo_dfs g fuel node s) (sort_from g fuel rest)
  unfolding sort_from
  sort_from-visit fuel node rest s h = rw (h, sort_from) refl

  key_done :
      (node : ℕ) (rest : List ℕ) (s t u : Sorting)
      → Visited g node s t
      → Sorted rest t u
      → Sorted (node ∷ rest) s u
  key_done node rest s t u (a, d) (b, all) = (
    After-trans g s t u a b,
    λ w m. elim m [ Memᴰ.head p ↦ rw p (b.done node d) | Memᴰ.tail k ↦ all w k ],
  )

  nothing_waits :
      (s : Sorting) (v : ℕ)
      → IsSearching g s
      → s.rec_stack ≡ []
      → contains s.visited v ≡ true
      → contains s.stack v ≡ true
  unfolding contains any
  nothing_waits s v i none_waits h =
      present_left _ _ _ (i.split v) h (ap (λ r. contains r v) none_waits)

  sort_from-Returns :
      (fuel : ℕ)
      → length (nodes g) ≤ fuel
      → (ks : List ℕ) (s : Sorting) → IsSearching g s
      → s.rec_stack ≡ []
      → ((w : ℕ) → Memᴰ w ks → IsNode g w)
      → Returns g (Sorted ks s) (sort_from g fuel ks s)
  sort_from-Returns fuel enough [] s i top all =
      clean s (unfold sort_from in refl) (After-refl g s i, λ w m. absurd (Memᴰ.not-nil m))
  sort_from-Returns fuel enough (node ∷ rest) s i top all =
      elim (Bool-cases (contains s.visited node)) [
        | inl old ↦ rw (sort_from-skip fuel node rest s old) (
            Returns-map g (Sorted rest s) (Sorted (node ∷ rest) s) (sort_from g fuel rest s)
              (sort_from-Returns fuel enough rest s i top (λ w m. all w (Memᴰ.tail m)))
              (λ u q.
                key_done node rest s s u (After-refl g s i, nothing_waits s node i top old) q))
        | inr new ↦ rw (sort_from-visit fuel node rest s new) (
            Returns-if_true g (Visited g node s) (Sorted (node ∷ rest) s) (topo_dfs g fuel node s)
              (sort_from g fuel rest)
              (topo_dfs-Works g fuel node s i new (all node (Memᴰ.head refl)) (rw top tt)
                (omega (arith, unseen-le s.visited (nodes g))))
              (λ t h.
                Returns-map g (Sorted rest t) (Sorted (node ∷ rest) s) (sort_from g fuel rest t)
                  (sort_from-Returns fuel enough rest t h.0.searching (h.0.trails ∙ top)
                    (λ w m. all w (Memᴰ.tail m)))
                  (λ u q. key_done node rest s t u h q)))
      ]

  empty-IsSearching : IsSearching g empty
  unfolding contains any
  empty-IsSearching = record {
    split = λ v. refl;
    apart = λ v h. refl;
    trail = tt;
    once = tt;
    ordered = tt;
    known = λ v h. cc;
  }

  pub keys_returned :
      Returns g
        (Sorted (map (λ e. e.0) g) empty)
        (sort_from g (length (nodes g)) (map (λ e. e.0) g) empty)
  keys_returned =
      sort_from-Returns (length (nodes g)) (omega arith) (map (λ e. e.0) g) empty empty-IsSearching
        refl (λ w m. inl m)
