-- ===== src/Graph/Dfs.antt =====
-- rust-api/src/optimization/graph_traversal.rs: `dfs`. The stack is a list, its top first.
use angavu_intelligence_back.Common.{
  ℕ, zero, suc, Bool, true, false, Option, none, some, List, [], ◌∷◌, ◌++◌, length, if◌then◌else◌,
  ◌||◌,
}
use angavu_intelligence_back.Graph.{Adjacency, get, contains, edge_ends}
pub mod Loop
pub mod Reach

-- A node of the stack, with its depth and its parent.
pub record Entry : Type 0 where
  pub node : ℕ
  pub depth : ℕ
  pub par : Option ℕ

pub record Search : Type 0 where
  pub visited : List ℕ
  pub depths : List (ℕ × ℕ)
  pub parent : List (ℕ × Option ℕ)
  pub visited_set : List ℕ
  pub has_cycle : Bool
  pub stack : List Entry

contains_key {ℓ} : {A : Type ℓ} → ℕ → List (ℕ × A) → Bool
contains_key k m = elim (get k m) [ none ↦ false | some _ ↦ true ]

-- The loop over the reversed neighbours leaves the first of them on top.
unfoldable pub push_neighbors : List ℕ → ℕ → ℕ → List ℕ → List Entry → List Entry
push_neighbors seen node depth [] stack = stack
push_neighbors seen node depth (v ∷ vs) stack =
    let pushed = push_neighbors seen node depth vs stack in
    if contains seen v
    then pushed
    else record { node = v; depth = suc depth; par = some node } ∷ pushed

-- A node that is visited already.
unfoldable pub skip : Search → Entry → List Entry → Search
unfolding contains_key
skip s e rest = record s { has_cycle = contains_key e.node s.parent || s.has_cycle; stack = rest }

module _ (g : Adjacency) where
  unfoldable pub visit : Search → Entry → List Entry → Search
  visit s e rest =
      let seen = e.node ∷ s.visited_set in
      record {
        visited = s.visited ++ e.node ∷ [];
        depths = (e.node, e.depth) ∷ s.depths;
        parent = (e.node, e.par) ∷ s.parent;
        visited_set = seen;
        has_cycle = s.has_cycle;
        stack = elim (get e.node g) [
          | none ↦ rest
          | some neighbors ↦ push_neighbors seen e.node e.depth neighbors rest
        ];
      }

  -- One round of the `while` loop.
  unfoldable pub round : Search → Entry → List Entry → Search
  round s e rest = if contains s.visited_set e.node then skip s e rest else visit s e rest

  unfoldable pub loop : ℕ → Search → Option Search
  loop zero s = elim s.stack [ [] ↦ some s | _ ∷ _ ↦ none ]
  loop (suc fuel) s = elim s.stack [ [] ↦ some s | e ∷ rest ↦ loop fuel (round s e rest) ]

unfoldable pub start : ℕ → Search
start source = record {
  visited = [];
  depths = [];
  parent = [];
  visited_set = [];
  has_cycle = false;
  stack = record { node = source; depth = 0; par = none } ∷ [];
}

-- `none` if the fuel runs out.
unfoldable pub dfs : Adjacency → ℕ → Option Search
dfs g source = loop g (suc (length (edge_ends g))) (start source)
