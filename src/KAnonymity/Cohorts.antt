-- ===== src/KAnonymity/Cohorts.antt =====
-- rust-api/src/gateway/k_anonymity.rs: `merge_small_cohorts` and `cohort_distance`. The hash map of
-- cohorts is an association list; its order stands for the map's iteration order.
use Prim.Native.Char.{code}
use angavu_intelligence_back.Common.{
  ℕ, suc, ◌+◌, ◌-◌, not, Option, none, some, List, [], ◌∷◌, ◌++◌, String, str_eq, same_text, length,
  ltb, leb, ◌==◌, retain, if◌then◌else◌,
}
use angavu_intelligence_back.KAnonymity.{KAnonymityEnforcer}

abbrev pub Cohorts : Type 0
Cohorts = List (String × List String)

-- `split('|')` of a text, as the list of its parts.
push_front : ℕ → List (List ℕ) → List (List ℕ)
push_front c [] = (c ∷ []) ∷ []
push_front c (part ∷ parts) = (c ∷ part) ∷ parts

split_bar : String → List (List ℕ)
unfolding push_front
split_bar String.[] = [] ∷ []
split_bar (String.◌∷◌ c s) =
    let rest = split_bar s in if code c == b'|' then [] ∷ rest else push_front (code c) rest

differing : List (List ℕ) → List (List ℕ) → ℕ
unfolding same_text
differing (a ∷ as_) (b ∷ bs) =
    let rest = differing as_ bs in if same_text a b then rest else suc rest
differing _ _ = 0

abbrev abs_diff : ℕ → ℕ → ℕ
abs_diff a b = if leb b a then a - b else b - a

unfoldable pub cohort_distance : String → String → ℕ
unfolding split_bar differing
cohort_distance a b =
    let parts_a = split_bar a in
    let parts_b = split_bar b in
    differing parts_a parts_b + abs_diff (length parts_a) (length parts_b)

-- `min_by_key` of the keys: the first of the nearest.
closer : String → String × List String → String → String
closer key e best = if leb (cohort_distance key e.0) (cohort_distance key best) then e.0 else best

unfoldable pub nearest : String → Cohorts → Option String
unfolding closer
nearest key [] = none
nearest key (e ∷ cohorts) = elim (nearest key cohorts) [
  | none ↦ some e.0
  | some best ↦ some (closer key e best)
]

unfoldable pub get : String → Cohorts → Option (List String)
get key [] = none
get key ((j, members) ∷ cohorts) = if str_eq j key then some members else get key cohorts

unfoldable pub remove : String → Cohorts → Cohorts
remove key = retain (λ e. not (str_eq e.0 key))

-- `cohorts.entry(target).or_default().extend(members)`, for a target that is present.
unfoldable pub extend : String → List String → Cohorts → Cohorts
extend target members [] = []
extend target members ((j, old) ∷ cohorts) =
    (j, if str_eq j target then old ++ members else old) ∷ extend target members cohorts

unfoldable pub absorb : List String → Cohorts → Option String → Cohorts
absorb members cohorts none = cohorts
absorb members cohorts (some target) = extend target members cohorts

-- One round of the loop.
unfoldable pub merge_one : String → Cohorts → Cohorts
unfolding absorb
merge_one small_key cohorts = elim (get small_key cohorts) [
  | none ↦ cohorts
  | some members ↦
      let rest = remove small_key cohorts in absorb members rest (nearest small_key rest)
]

unfoldable pub merge_all : List String → Cohorts → Cohorts
merge_all [] cohorts = cohorts
merge_all (small_key ∷ keys) cohorts = merge_all keys (merge_one small_key cohorts)

unfoldable pub small_cohorts : ℕ → Cohorts → List String
small_cohorts k [] = []
small_cohorts k ((key, members) ∷ cohorts) =
    let rest = small_cohorts k cohorts in if ltb (length members) k then key ∷ rest else rest

unfoldable pub merge_small_cohorts : KAnonymityEnforcer → Cohorts → Cohorts
unfolding small_cohorts
merge_small_cohorts enforcer cohorts = merge_all (small_cohorts enforcer.k cohorts) cohorts
