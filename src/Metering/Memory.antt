-- ===== src/Metering/Memory.antt =====
-- Counters in memory by which the laws of the interface hold, and which never fail.
use angavu_intelligence_back.Common.{
  ℕ, suc, ◌≡◌, ◌≢◌, refl, ap, sym, ◌∙◌, Bool, true, false, ◌&&◌, Option, none, some, str_eq,
  str_eq_iff, str_eq_refl, if◌then◌else◌, Bool-cases, inl, inr, arith, ap₂,
}
use angavu_intelligence_back.Metering.{Key, usage_key, daily_usage_key}
use angavu_intelligence_back.Metering.Counters.{Counters}
use angavu_intelligence_back.Metering.Quota.{Reliable}

abbrev pub Memory : Type 0
Memory = Key → ℕ

abbrev pub same_key : Key → Key → Bool
same_key (usage_key o p) (usage_key o' p') = str_eq o o' && str_eq p p'
same_key (daily_usage_key o d) (daily_usage_key o' d') = str_eq o o' && str_eq d d'
same_key _ _ = false

abbrev pub bump : Key → Memory → Memory
bump k s j = if same_key k j then suc (s k) else s j

abbrev pub read : Memory × ℕ → Option (Memory × ℕ) → Memory × ℕ
read r none = r
read r (some r') = r'

pub same_key_refl : (k : Key) → same_key k k ≡ true
same_key_refl (usage_key o p) = ground (arith, str_eq_refl o, str_eq_refl p)
same_key_refl (daily_usage_key o d) = ground (arith, str_eq_refl o, str_eq_refl d)

both_true : (a b : Bool) → a && b ≡ true → (a ≡ true) × (b ≡ true)
both_true a b h = ground arith

pub same_key_sound : (k j : Key) → same_key k j ≡ true → j ≡ k
same_key_sound (usage_key o p) (usage_key o' p') h =
    let (a, b) = both_true _ _ h in
    ap₂ usage_key (sym ((str_eq_iff o o').0 a)) (sym ((str_eq_iff p p').0 b))
same_key_sound (daily_usage_key o p) (daily_usage_key o' p') h =
    let (a, b) = both_true _ _ h in
    ap₂ daily_usage_key (sym ((str_eq_iff o o').0 a)) (sym ((str_eq_iff p p').0 b))
same_key_sound (usage_key o p) (daily_usage_key o' p') h = absurd (ground arith)
same_key_sound (daily_usage_key o p) (usage_key o' p') h = absurd (ground arith)

module _ (k : Key) (s s' : Memory) (n : ℕ)
    (e : ◌≡◌ {A = Option (Memory × ℕ)} (some (bump k s, suc (s k))) (some (s', n))) where
  pair : ◌≡◌ {A = Memory × ℕ} (bump k s, suc (s k)) (s', n)
  pair = ap (read (s', n)) e

  pub bump_self : (n ≡ suc (s k)) × (s' k ≡ suc (s k))
  bump_self = (ap (λ x. x.1) (sym pair), ap (λ x. x.0 k) (sym pair) ∙ rw (same_key_refl k) refl)

  pub bump_ne : (j : Key) → j ≢ k → s' j ≡ s j
  bump_ne j h = ap (λ x. x.0 j) (sym pair) ∙ elim (Bool-cases (same_key k j)) [
    | inl e ↦ absurd (h (same_key_sound k j e))
    | inr e ↦ rw e refl
  ]

abbrev pub memory : Counters
memory = record {
  State = Memory;
  get = λ k s. s k;
  incr = λ k s. some (bump k s, suc (s k));
  expire = λ k ttl s. s;
  incr-get = bump_self;
  incr-get_ne = λ k j s s' n e h. bump_ne k s s' n e j h;
  get-expire = λ k j ttl s. refl;
}

pub memory-Reliable : Reliable memory
memory-Reliable k s = ((bump k s, suc (s k)), refl)
