-- ===== src/Graph/Topological/Visit.antt =====
-- What `topo_dfs` keeps: the nodes that are done are in topological order, and those that are not done
-- are a trail.
use angavu_intelligence_back.Common.{
  ℕ, ◌≡◌, ◌∙◌, refl, ap, sym, subst, Bool, true, false, ◌||◌, Option, some, List, [], ◌∷◌, any,
  ◌==◌,
}
use mathlib.Core.List.{reverse}
use angavu_intelligence_back.Graph.{Adjacency, contains}
use angavu_intelligence_back.Graph.Walk.{Edge}
use angavu_intelligence_back.Graph.Topological.{Sorting, remove, enter, leave, if_true}
use angavu_intelligence_back.Graph.Topological.Members.{
  contains-concat, reverse-concat, contains-reverse, remove-head, or_assoc, or_moved, absent_right,
  absent_left, apart-cons, apart-concat, contains-cons, contains-tail, contains-head,
}
use angavu_intelligence_back.Graph.Topological.Trail.{Cycle, Leads, IsTrail}
use angavu_intelligence_back.Graph.Topological.Order.{IsTopological, IsNode}

abbrev IsDistinct : List ℕ → Type 0
IsDistinct [] = Unit
IsDistinct (v ∷ vs) = (contains vs v ≡ false) × IsDistinct vs

module _ (g : Adjacency) where
  pub record IsSearching (s : Sorting) : Type 0 where
    pub split : (v : ℕ) → contains s.visited v ≡ (contains s.rec_stack v || contains s.stack v)
    pub apart : (v : ℕ) → contains s.rec_stack v ≡ true → contains s.stack v ≡ false
    pub trail : IsTrail g s.rec_stack
    pub once : IsDistinct s.rec_stack
    pub ordered : IsTopological g (reverse s.stack)
    pub known : (v : ℕ) → contains s.visited v ≡ true → IsNode g v

  -- After a call, from the state before it.
  pub record After (s t : Sorting) : Type 0 where
    pub searching : IsSearching t
    pub trails : t.rec_stack ≡ s.rec_stack
    pub keeps : (v : ℕ) → contains s.visited v ≡ true → contains t.visited v ≡ true
    pub done : (v : ℕ) → contains s.stack v ≡ true → contains t.stack v ≡ true

  -- A call that returns: it found a cycle, or the state after it is as `P` says.
  pub data Returns (P : Sorting → Type 0) (r : Option (Bool × Sorting)) : Type 0 where
    cyclic : (t : Sorting) → r ≡ some (false, t) → Cycle g → Returns P r
    clean : (t : Sorting) → r ≡ some (true, t) → P t → Returns P r

  pub Returns-if_true :
      (P Q : Sorting → Type 0) (r : Option (Bool × Sorting))
      (next : Sorting → Option (Bool × Sorting))
      → Returns P r
      → ((t : Sorting) → P t → Returns Q (next t))
      → Returns Q (if_true r next)
  Returns-if_true P Q r next (cyclic t e c) all = cyclic t (rw e refl) c
  Returns-if_true P Q r next (clean t e p) all = rw e (all t p)

  pub Returns-map :
      (P Q : Sorting → Type 0) (r : Option (Bool × Sorting))
      → Returns P r
      → ((t : Sorting) → P t → Q t)
      → Returns Q r
  Returns-map P Q r (cyclic t e c) all = cyclic t e c
  Returns-map P Q r (clean t e p) all = clean t e (all t p)

  pub After-trans : (s t u : Sorting) → After s t → After t u → After s u
  After-trans s t u a b = record {
    searching = b.searching;
    trails = b.trails ∙ a.trails;
    keeps = λ v h. b.keeps v (a.keeps v h);
    done = λ v h. b.done v (a.done v h);
  }

  pub enter-IsSearching :
      (node : ℕ) (s : Sorting)
      → IsSearching s
      → contains s.visited node ≡ false
      → IsNode g node
      → Leads g s.rec_stack node
      → IsSearching (enter node s)
  unfolding enter contains any
  enter-IsSearching node s i new known leads = record {
    split = λ v.
        ap (λ b. (node == v) || b) (i.split v)
        ∙ sym (or_assoc (node == v) (contains s.rec_stack v) (contains s.stack v));
    apart = apart-cons node s.rec_stack s.stack (absent_right _ _ _ (i.split node) new) i.apart;
    trail = (leads, i.trail);
    once = (absent_left _ _ _ (i.split node) new, i.once);
    ordered = i.ordered;
    known = contains-cons (IsNode g) node s.visited known i.known;
  }

  pub leave-After :
      (node : ℕ) (s t : Sorting)
      → IsSearching s
      → contains s.visited node ≡ false
      → After (enter node s) t
      → ((w : ℕ) → Edge g node w → contains t.stack w ≡ true)
      → After s (leave node t)
  unfolding enter leave contains any
  leave-After node s t i new a finished =
      let absent = absent_left _ _ _ (i.split node) new in
      let left : remove node t.rec_stack ≡ s.rec_stack =
        ap (remove node) a.trails ∙ remove-head node s.rec_stack absent in
      let apart : (v : ℕ) → contains (node ∷ s.rec_stack) v ≡ true → contains t.stack v ≡ false =
        subst (λ r. (v : ℕ) → contains r v ≡ true → contains t.stack v ≡ false) a.trails
          a.searching.apart in
      record {
        searching = record {
          split = λ v.
              rw (left, contains-concat t.stack node v)
                (a.searching.split v
                  ∙ ap (λ r. contains r v || contains t.stack v) a.trails
                  ∙ or_moved (node == v) (contains s.rec_stack v) (contains t.stack v));
          apart = rw left (apart-concat node s.rec_stack t.stack absent apart);
          trail = rw left i.trail;
          once = rw left i.once;
          ordered = rw (reverse-concat t.stack node) (
            λ w e. contains-reverse t.stack w ∙ finished w e,
            contains-reverse t.stack node ∙ apart node (contains-head node s.rec_stack),
            a.searching.ordered,
          );
          known = a.searching.known;
        };
        trails = left;
        keeps = λ v h. a.keeps v (contains-tail node v s.visited h);
        done = λ v h. rw (contains-concat t.stack node v, a.done v h) refl;
      }
