-- ===== src/Approval/Memory.antt =====
-- A store in memory by which the laws of the Redis interface hold.
use angavu_intelligence_back.Common.{
  ℕ, ◌+◌, ◌*◌, ◌≤◌, ◌<◌, ◌≡◌, ◌≢◌, refl, not, Option, none, some, List, [], ◌∷◌, map, String,
  str_eq, str_eq_iff, str_eq_refl, ltb, retain, if◌then◌else◌, arith, Bool-cases, inl, inr,
}
use angavu_intelligence_back.Approval.Redis.{Redis, Stored}

pub record Entry : Type 0 where
  pub expires : ℕ
  pub value : Stored

abbrev pub Memory : Type 0
Memory = List (String × Entry)

unfoldable pub lookup : String → Memory → Option Entry
lookup k [] = none
lookup k ((j, e) ∷ s) = if str_eq j k then some e else lookup k s

unfoldable pub live : ℕ → Option Entry → Option Stored
live now none = none
live now (some e) = if ltb now e.expires then some e.value else none

unfoldable pub remove : String → Memory → Memory
remove k = retain (λ e. not (str_eq e.0 k))

lookup-remove : (k : String) (s : Memory) → lookup k (remove k s) ≡ none
unfolding lookup remove retain
lookup-remove k [] = refl
lookup-remove k ((j, e) ∷ s) = elim (Bool-cases (str_eq j k)) [
  | inl here ↦ rw here (lookup-remove k s)
  | inr there ↦ rw (there, there) (lookup-remove k s)
]

pub lookup-remove_ne : (k j : String) (s : Memory) → j ≢ k → lookup j (remove k s) ≡ lookup j s
unfolding lookup remove retain
lookup-remove_ne k j [] h = refl
lookup-remove_ne k j ((i, e) ∷ s) h =
    ground (arith, lookup-remove_ne k j s h, str_eq_iff i k, str_eq_iff i j)

module _ (now later ttl : ℕ) (k : String) (v : Stored) (s : Memory) where
  pub get-set_live :
      later < now + 1000 * ttl
      → live later (lookup k ((k, record { expires = now + 1000 * ttl; value = v }) ∷ remove k s))
        ≡ some v
  unfolding lookup live
  get-set_live h = ground (arith, str_eq_refl k)

  pub get-set_over :
      now + 1000 * ttl ≤ later
      → live later (lookup k ((k, record { expires = now + 1000 * ttl; value = v }) ∷ remove k s))
        ≡ none
  unfolding lookup live
  get-set_over h = ground (arith, str_eq_refl k)

  pub get-set_ne :
      (j : String)
      → j ≢ k
      → live later (lookup j ((k, record { expires = now + 1000 * ttl; value = v }) ∷ remove k s))
        ≡ live later (lookup j s)
  unfolding lookup
  get-set_ne j h = ground (arith, lookup-remove_ne k j s h, str_eq_iff k j)

pub get-del : (now : ℕ) (k : String) (s : Memory) → live now (lookup k (remove k s)) ≡ none
unfolding live
get-del now k s = rw (lookup-remove k s) refl

abbrev pub memory : Redis
memory = record {
  State = Memory;
  get = λ now k s. live now (lookup k s);
  set_ex = λ now k v ttl s. (k, record { expires = now + 1000 * ttl; value = v }) ∷ remove k s;
  del = remove;
  scan = λ now s. map (λ e. e.0) s;
  get-set_live = get-set_live;
  get-set_over = get-set_over;
  get-set_ne = λ now later ttl k j v s. get-set_ne now later ttl k v s j;
  get-del = get-del;
  get-del_ne = λ now k j s h. rw (lookup-remove_ne k j s h);
}
