-- ===== src/Graph/Topological/Members.antt =====
-- Membership in lists that grow, are reversed, or lose an element.
use angavu_intelligence_back.Common.{
  subst, inl, inr, Bool-cases, Bool, ℕ, ◌≡◌, ◌≤◌, refl, true, false, ◌||◌, List, [], ◌∷◌, ◌++◌, any,
  ◌==◌, retain, arith,
}
use mathlib.Core.List.{reverse, reverse-append, Memᴰ}
use mathlib.Core.List.Memᴰ
use angavu_intelligence_back.Graph.{contains}
use angavu_intelligence_back.Graph.Step.{unseen}
use angavu_intelligence_back.Graph.Topological.{remove}

pub contains-append :
    (xs ys : List ℕ) (v : ℕ) → contains (xs ++ ys) v ≡ (contains xs v || contains ys v)
unfolding contains any
contains-append [] ys v = refl
contains-append (x ∷ xs) ys v = ground (arith, contains-append xs ys v)

pub contains-concat :
    (xs : List ℕ) (x v : ℕ) → contains (xs ++ x ∷ []) v ≡ (contains xs v || (x == v))
unfolding contains any
contains-concat xs x v = ground (arith, contains-append xs (x ∷ []) v)

pub reverse-concat : (xs : List ℕ) (x : ℕ) → reverse (xs ++ x ∷ []) ≡ x ∷ reverse xs
reverse-concat xs x = reverse-append xs (x ∷ [])

pub contains-reverse : (xs : List ℕ) (v : ℕ) → contains (reverse xs) v ≡ contains xs v
unfolding contains any
contains-reverse [] v = refl
contains-reverse (x ∷ xs) v =
    let p : reverse (x ∷ xs) ≡ reverse xs ++ x ∷ [] = reverse-append (x ∷ []) xs in
    rw p (ground (arith, contains-concat (reverse xs) x v, contains-reverse xs v))

pub Memᴰ-contains : (xs : List ℕ) (v : ℕ) → Memᴰ v xs → contains xs v ≡ true
unfolding contains any
Memᴰ-contains [] v m = absurd (Memᴰ.not-nil m)
Memᴰ-contains (x ∷ xs) v (Memᴰ.head p) = ground arith
Memᴰ-contains (x ∷ xs) v (Memᴰ.tail m) = ground (arith, Memᴰ-contains xs v m)

remove-absent : (v : ℕ) (xs : List ℕ) → contains xs v ≡ false → remove v xs ≡ xs
unfolding contains any remove retain
remove-absent v [] h = refl
remove-absent v (x ∷ xs) h = ground (arith, remove-absent v xs)

pub remove-head : (v : ℕ) (xs : List ℕ) → contains xs v ≡ false → remove v (v ∷ xs) ≡ xs
unfolding remove retain
remove-head v xs h = ground (arith, remove-absent v xs h)

pub unseen_mono :
    (seen more vs : List ℕ)
    → ((v : ℕ) → contains seen v ≡ true → contains more v ≡ true)
    → unseen more vs ≤ unseen seen vs
unfolding unseen
unseen_mono seen more [] h = omega arith
unseen_mono seen more (v ∷ vs) h = ground (arith, h v, unseen_mono seen more vs h)

pub or_assoc : (a b c : Bool) → ((a || b) || c) ≡ (a || (b || c))
or_assoc true b c = refl
or_assoc false b c = refl

-- A node moves from the trail to the nodes that are done.
pub or_moved : (a r k : Bool) → ((a || r) || k) ≡ (r || (k || a))
or_moved true true k = refl
or_moved true false true = refl
or_moved true false false = refl
or_moved false r true = ground arith
or_moved false r false = ground arith

pub absent_right : (p r k : Bool) → p ≡ (r || k) → p ≡ false → k ≡ false
absent_right p true k e n = cc
absent_right p false k e n = cc

pub absent_left : (p r k : Bool) → p ≡ (r || k) → p ≡ false → r ≡ false
absent_left p true k e n = cc
absent_left p false k e n = refl

pub present_left : (p r k : Bool) → p ≡ (r || k) → p ≡ true → r ≡ false → k ≡ true
present_left p true k e h n = cc
present_left p false k e h n = cc

pub present_right : (p r k : Bool) → p ≡ (r || k) → k ≡ true → p ≡ true
present_right p true k e h = cc
present_right p false k e h = cc

pub apart-cons :
    (node : ℕ) (rec done : List ℕ)
    → contains done node ≡ false
    → ((v : ℕ) → contains rec v ≡ true → contains done v ≡ false)
    → (v : ℕ) → contains (node ∷ rec) v ≡ true
    → contains done v ≡ false
unfolding contains any
apart-cons node rec done new apart v h = ground (arith, apart v)

pub apart-concat :
    (node : ℕ) (rec done : List ℕ)
    → contains rec node ≡ false
    → ((v : ℕ) → contains (node ∷ rec) v ≡ true → contains done v ≡ false)
    → (v : ℕ) → contains rec v ≡ true
    → contains (done ++ node ∷ []) v ≡ false
unfolding contains any
apart-concat node rec done new apart v h = ground (arith, apart v, contains-concat done node v)

pub contains-cons :
    (P : ℕ → Type 0) (node : ℕ) (xs : List ℕ)
    → P node
    → ((v : ℕ) → contains xs v ≡ true → P v)
    → (v : ℕ) → contains (node ∷ xs) v ≡ true
    → P v
unfolding contains any
contains-cons P node xs new all v h = elim (Bool-cases (node == v)) [
  | inl e ↦ let same : node ≡ v = ground arith in subst P same new
  | inr e ↦ all v (ground arith)
]

pub contains-tail :
    (node v : ℕ) (xs : List ℕ) → contains xs v ≡ true → contains (node ∷ xs) v ≡ true
unfolding contains any
contains-tail node v xs h = ground arith

pub contains-head : (node : ℕ) (xs : List ℕ) → contains (node ∷ xs) node ≡ true
unfolding contains any
contains-head node xs = ground arith

pub contains-last : (node : ℕ) (xs : List ℕ) → contains (xs ++ node ∷ []) node ≡ true
unfolding contains any
contains-last node [] = ground arith
contains-last node (x ∷ xs) = ground (arith, contains-last node xs)
