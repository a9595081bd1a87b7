-- ===== src/RateLimit/Bucket.antt =====
-- The account of a token bucket, and of the map of buckets.
use angavu_intelligence_back.Common.{
  ℕ, ◌+◌, ◌-◌, ◌*◌, ◌/◌, ◌≤◌, ◌<◌, ◌≡◌, refl, Bool, true, false, leb, Bool-cases, inl, inr, arith,
}
use native.Mathlib.Nat.{mul-le-mul_left, lt-mul-div-succ}
use angavu_intelligence_back.RateLimit.{
  token, TokenBucket, refill, try_consume, nearest, retry_after,
}

abbrev cost : Bool → ℕ
cost true = token
cost false = 0

-- A request takes its token from what the bucket holds and has gained since.
pub record Spends (now : ℕ) (b : TokenBucket) (r : TokenBucket × Bool) : Type 0 where
  pub balance : r.0.tokens + cost r.1 ≤ b.tokens + b.refill_rate * (now - b.last_refill)
  pub full : r.0.tokens ≤ r.0.max_tokens
  pub bound : r.0.max_tokens ≡ b.max_tokens
  pub rate : r.0.refill_rate ≡ b.refill_rate
  pub at : r.0.last_refill ≡ now

pub try_consume-Spends : (now : ℕ) (b : TokenBucket) → Spends now b (try_consume now b)
unfolding try_consume refill
try_consume-Spends now b = elim (Bool-cases (leb token (refill now b).tokens)) [
  | inl e ↦
      rw (e, try_consume)
        (record {
          balance = ground (arith, e);
          full = omega arith;
          bound = refl;
          rate = refl;
          at = refl;
        })
  | inr e ↦
      rw (e, try_consume)
        (record { balance = omega arith; full = omega arith; bound = refl; rate = refl; at = refl })
]

le-nearest : (a r : ℕ) → a / r ≤ nearest a r
unfolding nearest
le-nearest a r = ground arith

-- A bucket that holds less than a token has one when more than its wait has passed.
try_consume-wait :
    (later : ℕ) (b : TokenBucket)
    → b.tokens < token
    → 0 < b.refill_rate
    → token ≤ b.max_tokens
    → b.last_refill + retry_after b < later
    → (try_consume later b).1 ≡ true
unfolding try_consume refill retry_after
try_consume-wait later b low gains fits waited =
    let wait = (token - b.tokens) / b.refill_rate in
    let short : leb token b.tokens ≡ false = ground arith in
    let passed : wait + 1 ≤ later - b.last_refill =
      omega (arith, rw short at waited, le-nearest (token - b.tokens) b.refill_rate) in
    let enough = lt-mul-div-succ (token - b.tokens) gains in
    let gained = mul-le-mul_left b.refill_rate passed in
    let e : leb token (refill later b).tokens ≡ true = ground (arith, enough, gained, low, fits) in
    rw (e, try_consume) refl

-- After a refusal a request is admitted once more than the wait that it names has passed.
pub try_consume-retry :
    (now later : ℕ) (b : TokenBucket)
    → (try_consume now b).1 ≡ false
    → 0 < b.refill_rate
    → token ≤ b.max_tokens
    → now + retry_after (try_consume now b).0 < later
    → (try_consume later (try_consume now b).0).1 ≡ true
unfolding try_consume refill
try_consume-retry now later b refused gains fits waited =
    elim (Bool-cases (leb token (refill now b).tokens)) [
      | inl e ↦ absurd (ground (arith, rw (try_consume, e) at refused))
      | inr e ↦
          rw (e, try_consume)
            (try_consume-wait later (refill now b) (ground (arith, e)) gains fits
              (rw (e, try_consume) at waited))
    ]
