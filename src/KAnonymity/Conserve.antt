-- ===== src/KAnonymity/Conserve.antt =====
-- Merging small cohorts into a large one loses nobody.
use angavu_intelligence_back.Common.{
  ℕ, suc, ◌+◌, ◌≤◌, ◌≡◌, inl, inr, refl, subst, ◌∙◌, Bool, true, false, ◌||◌, none, some, List, [],
  ◌∷◌, ◌++◌, String, str_eq, str_eq_iff, str_eq_refl, length, retain, All, if◌then◌else◌,
  Bool-cases, Option-cases, arith,
}
use angavu_intelligence_back.KAnonymity.{KAnonymityEnforcer}
use angavu_intelligence_back.KAnonymity.Cohorts.{
  Cohorts, absorb, nearest, get, remove, extend, merge_one, merge_all, small_cohorts,
  merge_small_cohorts,
}

-- How often a person stands in a list, and in all the cohorts together.
abbrev count : String → List String → ℕ
count a [] = 0
count a (b ∷ bs) = let rest = count a bs in if str_eq b a then suc rest else rest

abbrev pub occurrences : String → Cohorts → ℕ
occurrences a [] = 0
occurrences a ((_, members) ∷ m) = count a members + occurrences a m

abbrev Fresh : String → Cohorts → Type 0
Fresh key = All (λ e. str_eq e.0 key ≡ false)

-- A key stands once, as in a map.
abbrev pub Distinct : Cohorts → Type 0
Distinct [] = Unit
Distinct ((key, _) ∷ m) = Fresh key m × Distinct m

count-append : (a : String) (xs ys : List String) → count a (xs ++ ys) ≡ count a xs + count a ys
count-append a [] ys = omega arith
count-append a (x ∷ xs) ys = ground (arith, count-append a xs ys)

remove-Fresh : (key : String) (m : Cohorts) → Fresh key m → remove key m ≡ m
unfolding remove retain
remove-Fresh key [] h = refl
remove-Fresh key (e ∷ m) h = ground (arith, remove-Fresh key m h.1)

Fresh-remove : (k key : String) (m : Cohorts) → Fresh k m → Fresh k (remove key m)
unfolding remove retain
Fresh-remove k key [] h = tt
Fresh-remove k key (e ∷ m) h = ground (arith, Fresh-remove k key m h.1)

Distinct-remove : (key : String) (m : Cohorts) → Distinct m → Distinct (remove key m)
unfolding remove retain
Distinct-remove key [] h = tt
Distinct-remove key ((j, old) ∷ m) h =
    ground (arith, Distinct-remove key m h.1, Fresh-remove j key m h.0)

Fresh-extend :
    (k target : String) (members : List String) (m : Cohorts)
    → Fresh k m
    → Fresh k (extend target members m)
unfolding extend
Fresh-extend k target members [] h = tt
Fresh-extend k target members ((j, old) ∷ m) h = (h.0, Fresh-extend k target members m h.1)

Distinct-extend :
    (target : String) (members : List String) (m : Cohorts)
    → Distinct m
    → Distinct (extend target members m)
unfolding extend
Distinct-extend target members [] h = tt
Distinct-extend target members ((j, old) ∷ m) h =
    (Fresh-extend j target members m h.0, Distinct-extend target members m h.1)

Fresh-eq : (j key : String) (m : Cohorts) → str_eq j key ≡ true → Fresh j m → Fresh key m
Fresh-eq j key m e h = subst (λ k. Fresh k m) ((str_eq_iff j key).0 e) h

occurrences-remove :
    (a key : String) (members : List String) (m : Cohorts)
    → Distinct m
    → get key m ≡ some members
    → occurrences a (remove key m) + count a members ≡ occurrences a m
unfolding get remove retain
occurrences-remove a key members [] d g = absurd (ground arith)
occurrences-remove a key members ((j, old) ∷ m) d g = elim (Bool-cases (str_eq j key)) [
  | inl here ↦ ground (arith, remove-Fresh key m (Fresh-eq j key m here d.0))
  | inr there ↦ ground (arith, occurrences-remove a key members m d.1)
]

extend-Fresh :
    (a target : String) (members : List String) (m : Cohorts)
    → Fresh target m
    → extend target members m ≡ m
unfolding extend
extend-Fresh a target members [] h = refl
extend-Fresh a target members ((j, old) ∷ m) h = ground (arith, extend-Fresh a target members m h.1)

abbrev has_key : String → Cohorts → Bool
has_key k [] = false
has_key k ((j, _) ∷ m) = str_eq j k || has_key k m

occurrences-extend :
    (a target : String) (members : List String) (m : Cohorts)
    → Distinct m
    → has_key target m ≡ true
    → occurrences a (extend target members m) ≡ occurrences a m + count a members
unfolding extend
occurrences-extend a target members [] d g = absurd (ground arith)
occurrences-extend a target members ((j, old) ∷ m) d g = elim (Bool-cases (str_eq j target)) [
  | inl here ↦ ground (
    arith,
    extend-Fresh a target members m (Fresh-eq j target m here d.0),
    count-append a old members,
  )
  | inr there ↦ ground (arith, occurrences-extend a target members m d.1)
]

nearest-has_key :
    (key target : String) (m : Cohorts) → nearest key m ≡ some target → has_key target m ≡ true
unfolding nearest
nearest-has_key key target [] h = absurd (ground arith)
nearest-has_key key target (e ∷ m) h = elim (Option-cases (nearest key m)) [
  | inl n ↦ ground (arith, str_eq_refl target)
  | inr (best, n) ↦
      ground (arith, nearest-has_key key best m n, str_eq_refl e.0, str_eq_refl target)
]

nearest-none : (key k : String) (m : Cohorts) → nearest key m ≡ none → has_key k m ≡ false
unfolding nearest
nearest-none key k [] h = refl
nearest-none key k (e ∷ m) h = absurd (ground arith)

has_key-remove :
    (k key : String) (m : Cohorts)
    → str_eq k key ≡ false
    → has_key k m ≡ true
    → has_key k (remove key m) ≡ true
unfolding remove retain
has_key-remove k key [] d h = h
has_key-remove k key ((j, old) ∷ m) d h =
    ground (arith, has_key-remove k key m d, str_eq_iff j k, str_eq_iff j key, str_eq_iff k key)

has_key-extend :
    (k target : String) (members : List String) (m : Cohorts)
    → has_key k (extend target members m) ≡ has_key k m
unfolding extend
has_key-extend k target members [] = refl
has_key-extend k target members ((j, old) ∷ m) = ground (arith, has_key-extend k target members m)

-- What one round keeps, while some cohort with another key stays: the map, that cohort, everybody.
record Kept (a big : String) (m m' : Cohorts) : Type 0 where
  distinct : Distinct m'
  anchor : has_key big m' ≡ true
  everybody : occurrences a m' ≡ occurrences a m

absorb-Kept :
    (a big key : String) (members : List String) (m : Cohorts)
    → Distinct m
    → has_key big m ≡ true
    → str_eq big key ≡ false
    → get key m ≡ some members
    → Kept a big m (absorb members (remove key m) (nearest key (remove key m)))
unfolding absorb
absorb-Kept a big key members m d here other g =
    let rest = remove key m in
    let stays = has_key-remove big key m other here in
    elim (Option-cases (nearest key rest)) [
      | inl n ↦ absurd (ground (arith, nearest-none key big rest n))
      | inr (target, n) ↦ rw n (record {
        distinct = Distinct-extend target members rest (Distinct-remove key m d);
        anchor = has_key-extend big target members rest ∙ stays;
        everybody =
            occurrences-extend a target members rest (Distinct-remove key m d)
              (nearest-has_key key target rest n)
            ∙ occurrences-remove a key members m d g;
      })
    ]

merge_one-Kept :
    (a big key : String) (m : Cohorts)
    → Distinct m
    → has_key big m ≡ true
    → str_eq big key ≡ false
    → Kept a big m (merge_one key m)
unfolding merge_one
merge_one-Kept a big key m d here other = elim (Option-cases (get key m)) [
  | inl n ↦ rw (n, merge_one) (record { distinct = d; anchor = here; everybody = refl })
  | inr (members, g) ↦ rw (g, merge_one) (absorb-Kept a big key members m d here other g)
]

abbrev listed : String → List String → Bool
listed k [] = false
listed k (j ∷ js) = str_eq k j || listed k js

merge_all-Kept :
    (a big : String) (keys : List String) (m : Cohorts)
    → Distinct m
    → has_key big m ≡ true
    → listed big keys ≡ false
    → Kept a big m (merge_all keys m)
unfolding merge_all
merge_all-Kept a big [] m d here l = record { distinct = d; anchor = here; everybody = refl }
merge_all-Kept a big (key ∷ keys) m d here l =
    let one = merge_one-Kept a big key m d here (ground arith) in
    let rest = merge_all-Kept a big keys (merge_one key m) one.distinct one.anchor (ground arith) in
    record {
      distinct = rest.distinct;
      anchor = rest.anchor;
      everybody = rest.everybody ∙ one.everybody;
    }

get-has_key :
    (k : String) (members : List String) (m : Cohorts) → get k m ≡ some members → has_key k m ≡ true
unfolding get
get-has_key k members [] g = absurd (ground arith)
get-has_key k members ((j, old) ∷ m) g = ground (arith, get-has_key k members m)

Fresh-listed :
    (k : ℕ) (big : String) (m : Cohorts) → Fresh big m → listed big (small_cohorts k m) ≡ false
unfolding small_cohorts
Fresh-listed k big [] h = refl
Fresh-listed k big ((j, old) ∷ m) h =
    ground (arith, Fresh-listed k big m h.1, str_eq_iff big j, str_eq_iff j big)

large-listed :
    (k : ℕ) (big : String) (members : List String) (m : Cohorts)
    → Distinct m
    → get big m ≡ some members
    → k ≤ length members
    → listed big (small_cohorts k m) ≡ false
unfolding small_cohorts get
large-listed k big members [] d g h = refl
large-listed k big members ((j, old) ∷ m) d g h = elim (Bool-cases (str_eq j big)) [
  | inl here ↦ ground (arith, Fresh-listed k big m (Fresh-eq j big m here d.0))
  | inr there ↦ ground (arith, large-listed k big members m d.1, str_eq_iff big j, str_eq_iff j big)
]

-- Where some cohort has k members or more, and each key stands once, merging loses and invents
-- nobody: every person stands in the cohorts as often as before.
pub merge_small_cohorts-occurrences :
    (enforcer : KAnonymityEnforcer) (m : Cohorts) (big a : String) (members : List String)
    → Distinct m
    → get big m ≡ some members
    → enforcer.k ≤ length members
    → occurrences a (merge_small_cohorts enforcer m) ≡ occurrences a m
unfolding merge_small_cohorts
merge_small_cohorts-occurrences enforcer m big a members d g h =
    let kept =
      merge_all-Kept a big (small_cohorts enforcer.k m) m d (get-has_key big members m g)
        (large-listed enforcer.k big members m d g h) in
    kept.everybody
