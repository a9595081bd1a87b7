-- ===== src/KAnonymity/Merge.antt =====
-- What merging the small cohorts does: no small cohort stays, and who is kept.
use angavu_intelligence_back.Common.{
  ℕ, suc, ◌≤◌, ◌<◌, ◌≡◌, ◌⊎◌, inl, inr, refl, Bool, true, false, ◌||◌, none, some, List, [], ◌∷◌,
  String, str_eq, str_eq_refl, length, length-append, retain, All, Option-cases, arith,
}
use angavu_intelligence_back.KAnonymity.{KAnonymityEnforcer}
use angavu_intelligence_back.KAnonymity.Cohorts.{
  Cohorts, absorb, nearest, get, remove, extend, merge_one, merge_all, small_cohorts,
  merge_small_cohorts,
}

abbrev listed : String → List String → Bool
listed k [] = false
listed k (j ∷ js) = str_eq k j || listed k js

-- Every cohort has `lo` members or more, or its key is still to be merged.
abbrev Pending : ℕ → List String → Cohorts → Type 0
Pending lo keys = All (λ e. (lo ≤ length e.1) ⊎ (listed e.0 keys ≡ true))

module _ (lo : ℕ) where
  remove-Pending :
      (key : String) (keys : List String) (m : Cohorts)
      → Pending lo (key ∷ keys) m
      → Pending lo keys (remove key m)
  unfolding remove retain
  remove-Pending key keys [] h = tt
  remove-Pending key keys (e ∷ m) h = ground (arith, remove-Pending key keys m h.1)

  extend-Pending :
      (target : String) (members : List String) (keys : List String) (m : Cohorts)
      → Pending lo keys m
      → Pending lo keys (extend target members m)
  unfolding extend
  extend-Pending target members keys [] h = tt
  extend-Pending target members keys ((j, old) ∷ m) h =
      ground (arith, extend-Pending target members keys m h.1, length-append old members)

  get-none :
      (key : String) (keys : List String) (m : Cohorts)
      → get key m ≡ none
      → Pending lo (key ∷ keys) m
      → Pending lo keys m
  unfolding get
  get-none key keys [] n h = tt
  get-none key keys ((j, old) ∷ m) n h = ground (arith, get-none key keys m (ground arith) h.1)

  merge_one-Pending :
      (key : String) (keys : List String) (m : Cohorts)
      → Pending lo (key ∷ keys) m
      → Pending lo keys (merge_one key m)
  unfolding merge_one
  merge_one-Pending key keys m h = elim (Option-cases (get key m)) [
    | inl n ↦ rw (n, merge_one) (get-none key keys m n h)
    | inr (members, g) ↦
        rw (g, merge_one)
          (elim (nearest key (remove key m))
            as (λ o. Pending lo keys (absorb members (remove key m) o)) [
              | none ↦ remove-Pending key keys m h
              | some target ↦
                  extend-Pending target members keys (remove key m) (remove-Pending key keys m h)
            ])
  ]

  merge_all-Pending :
      (keys : List String) (m : Cohorts) → Pending lo keys m → Pending lo [] (merge_all keys m)
  unfolding merge_all
  merge_all-Pending [] m h = h
  merge_all-Pending (key ∷ keys) m h =
      merge_all-Pending keys (merge_one key m) (merge_one-Pending key keys m h)

  Pending-nil : (m : Cohorts) → Pending lo [] m → All (λ e. lo ≤ length e.1) m
  Pending-nil [] h = tt
  Pending-nil (e ∷ m) h = ground (arith, Pending-nil m h.1)

weaken-Pending :
    (lo : ℕ) (key : String) (keys : List String) (m : Cohorts)
    → Pending lo keys m
    → Pending lo (key ∷ keys) m
weaken-Pending lo key keys [] h = tt
weaken-Pending lo key keys (e ∷ m) h = ground (arith, weaken-Pending lo key keys m h.1)

small_cohorts-Pending : (k : ℕ) (m : Cohorts) → Pending k (small_cohorts k m) m
unfolding small_cohorts
small_cohorts-Pending k [] = tt
small_cohorts-Pending k ((key, members) ∷ m) =
    let rest = small_cohorts k m in
    ground (arith, small_cohorts-Pending k m, weaken-Pending k key rest m, str_eq_refl key)

-- After merging, every cohort that is left has at least k members.
pub merge_small_cohorts-large :
    (enforcer : KAnonymityEnforcer) (m : Cohorts)
    → All (λ e. enforcer.k ≤ length e.1) (merge_small_cohorts enforcer m)
unfolding merge_small_cohorts
merge_small_cohorts-large enforcer m = Pending-nil enforcer.k _ (
    merge_all-Pending enforcer.k (small_cohorts enforcer.k m) m
      (small_cohorts-Pending enforcer.k m))

small-Pending :
    (lo k : ℕ) (m : Cohorts) → All (λ e. length e.1 < k) m → Pending lo (small_cohorts k m) m
unfolding small_cohorts
small-Pending lo k [] h = tt
small-Pending lo k ((key, members) ∷ m) h =
    let rest = small_cohorts k m in
    ground (arith, small-Pending lo k m h.1, weaken-Pending lo key rest m, str_eq_refl key)

empty_of_bounds : (m : Cohorts) → ((lo : ℕ) → All (λ e. lo ≤ length e.1) m) → m ≡ []
empty_of_bounds [] h = refl
empty_of_bounds (e ∷ m) h = absurd (omega (arith, (h (suc (length e.1))).0))

-- Where every cohort is smaller than k, nothing is left after merging: the last cohort finds none to
-- be merged with and is dropped with all the members gathered in it, also where they are k or more.
pub merge_small_cohorts-lost :
    (enforcer : KAnonymityEnforcer) (m : Cohorts)
    → All (λ e. length e.1 < enforcer.k) m
    → merge_small_cohorts enforcer m ≡ []
unfolding merge_small_cohorts
merge_small_cohorts-lost enforcer m h =
    let keys = small_cohorts enforcer.k m in
    empty_of_bounds (merge_all keys m)
      (λ lo. Pending-nil lo _ (merge_all-Pending lo keys m (small-Pending lo enforcer.k m h)))
