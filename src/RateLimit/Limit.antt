-- ===== src/RateLimit/Limit.antt =====
-- How many requests a key is granted.
use angavu_intelligence_back.Common.{
  find, find-insert, ℕ, suc, ◌+◌, ◌-◌, ◌*◌, ◌≤◌, ◌<◌, ◌≡◌, refl, ap, sym, ◌∙◌, max, Bool, true,
  false, some, List, [], ◌∷◌, String, str_eq, str_eq_iff, str_eq_refl, Result, ok, err,
  if◌then◌else◌, ◌&&◌, Bool-cases, inl, inr, arith,
}
use native.Mathlib.Nat.{mul-add}
use angavu_intelligence_back.RateLimit.{
  token, TokenBucket, new, try_consume, retry_after, get_or, answer, check_bucket, RateLimiter,
  check,
}
use angavu_intelligence_back.RateLimit.Bucket.{try_consume-Spends, try_consume-retry}

-- A request that is checked, with the time of its check.
pub record Request : Type 0 where
  pub now : ℕ
  pub key_id : String
  pub tier_rpm : ℕ

abbrev pub ask : Request → RateLimiter → RateLimiter × Result {0, 0} ℕ ℕ
ask q = check q.now q.key_id q.tier_rpm

abbrev pub is_ok : Result {0, 0} ℕ ℕ → Bool
is_ok (ok _) = true
is_ok (err _) = false

-- How many requests of a key are admitted.
unfoldable pub admitted : String → List Request → RateLimiter → ℕ
admitted key [] l = 0
admitted key (q ∷ qs) l =
    let (l', r) = ask q l in
    let rest = admitted key qs l' in if is_ok r && str_eq q.key_id key then suc rest else rest

-- The checks come one after the other, from `start` to `stop`.
unfoldable pub InOrder : ℕ → ℕ → List Request → Type 0
InOrder start stop [] = start ≤ stop
InOrder start stop (q ∷ qs) = (start ≤ q.now) × InOrder q.now stop qs

InOrder-le : (start stop : ℕ) (qs : List Request) → InOrder start stop qs → start ≤ stop
unfolding InOrder
InOrder-le start stop [] h = h
InOrder-le start stop (q ∷ qs) (a, h) = omega (arith, InOrder-le q.now stop qs h)

InOrder-earlier :
    (first start stop : ℕ) (qs : List Request)
    → first ≤ start
    → InOrder start stop qs
    → InOrder first stop qs
unfolding InOrder
InOrder-earlier first start stop [] le h = omega arith
InOrder-earlier first start stop (q ∷ qs) le (a, h) = (omega arith, h)

is_ok-answer : (r : TokenBucket × Bool) → is_ok (answer r) ≡ r.1
unfolding answer
is_ok-answer (b, true) = refl
is_ok-answer (b, false) = refl

answer-err :
    (r : TokenBucket × Bool) (wait : ℕ)
    → answer r ≡ err wait
    → (r.1 ≡ false) × (retry_after r.0 ≡ wait)
unfolding answer
answer-err (b, true) wait h = absurd (ground (arith, h))
answer-err (b, false) wait h = (refl, ground (arith, h))

split-span : (rate a b c : ℕ) → a ≤ b → b ≤ c → rate * (c - a) ≡ rate * (b - a) + rate * (c - b)
split-span rate a b c h k =
    let e : c - a ≡ (b - a) + (c - b) = omega arith in rw e (mul-add rate (b - a) (c - b))

module _ (q : Request) (l : RateLimiter) where
  pub ask-own :
      (key : String) (b : TokenBucket)
      → str_eq q.key_id key ≡ true
      → find key l.buckets ≡ some b
      → (find key (ask q l).0.buckets ≡ some (try_consume q.now b).0)
        × ((ask q l).1 ≡ answer (try_consume q.now b))
  unfolding check check_bucket
  ask-own key b own h =
      let here : find q.key_id l.buckets ≡ some b = rw ((str_eq_iff q.key_id key).0 own) h in
      rw (here, check, check_bucket)
        (ground (arith, find-insert q.key_id key (try_consume q.now b).0 l.buckets, own), refl)

  ask-other :
      (key : String)
      → str_eq q.key_id key ≡ false
      → find key (ask q l).0.buckets ≡ find key l.buckets
  unfolding check check_bucket
  ask-other key ne = ground (
    arith,
    find-insert q.key_id key
        (try_consume q.now
          (get_or (new q.now (max q.tier_rpm l.default_rpm)) (find q.key_id l.buckets))).0
        l.buckets,
    ne,
  )

-- Until `stop`, a key that has a bucket is granted no more requests than the tokens that the bucket
-- held, and those it gains from its last use until then. The checks, of whatever keys, come one after
-- the other, none before that last use.
pub admitted-le :
    (key : String) (stop : ℕ) (qs : List Request) (l : RateLimiter) (b : TokenBucket)
    → find key l.buckets ≡ some b
    → InOrder b.last_refill stop qs
    → admitted key qs l * token ≤ b.tokens + b.refill_rate * (stop - b.last_refill)
unfolding admitted InOrder
admitted-le key stop [] l b h order = omega arith
admitted-le key stop (q ∷ qs) l b h (after, order) = elim (Bool-cases (str_eq q.key_id key)) [
  | inr ne ↦
      let rest =
        admitted-le key stop qs (ask q l).0 b (ask-other q l key ne ∙ h)
          (InOrder-earlier b.last_refill q.now stop qs after order) in
      ground (arith, rest, ne)
  | inl own ↦
      let (found, told) = ask-own q l key b own h in
      let r = try_consume q.now b in
      let spends = try_consume-Spends q.now b in
      let rest = admitted-le key stop qs (ask q l).0 r.0 found (rw (spends.at) order) in
      let rest' : admitted key qs (ask q l).0 * token
          ≤ r.0.tokens + b.refill_rate * (stop - q.now) =
        rw (spends.rate, spends.at) at rest in
      let counted : is_ok (ask q l).1 ≡ r.1 = ap is_ok told ∙ is_ok-answer r in
      let span : b.refill_rate * (stop - b.last_refill)
          ≡ b.refill_rate * (q.now - b.last_refill) + b.refill_rate * (stop - q.now) =
        split-span b.refill_rate b.last_refill q.now stop after (InOrder-le q.now stop qs order) in
      elim (Bool-cases r.1) [
        | inl e ↦ ground (arith, rest', counted, spends.balance, span, own, e)
        | inr e ↦ ground (arith, rest', counted, spends.balance, span, own, e)
      ]
]

-- Where the bucket of a key gains tokens and can hold one, a request of the key that is refused is
-- followed by one that is granted, once more than the wait that the refusal names has passed and if no
-- other request of the key comes between.
pub check-retry :
    (q q' : Request) (l : RateLimiter) (b : TokenBucket) (wait : ℕ)
    → find q.key_id l.buckets ≡ some b
    → 0 < b.refill_rate
    → token ≤ b.max_tokens
    → (ask q l).1 ≡ err wait
    → q'.key_id ≡ q.key_id
    → q.now + wait < q'.now
    → is_ok (ask q' (ask q l).0).1 ≡ true
check-retry q q' l b wait h gains fits refused same waited =
    let r = try_consume q.now b in
    let (found, told) = ask-own q l q.key_id b (str_eq_refl q.key_id) h in
    let (denied, named) = answer-err r wait (sym told ∙ refused) in
    let (_, told') =
      ask-own q' (ask q l).0 q.key_id r.0 ((str_eq_iff q'.key_id q.key_id).1 same) found in
    ap is_ok told'
    ∙ is_ok-answer (try_consume q'.now r.0)
    ∙ try_consume-retry q.now q'.now b denied gains fits (rw named waited)
