-- ===== src/RateLimit.antt =====
-- rust-api/src/gateway/rate_limit.rs: `TokenBucket`, `RateLimiter`, `IpRateLimiter` and the middleware,
-- with the limits of gateway/auth.rs. Times are nanoseconds. In place of an f64, tokens are counted in
-- parts of which 60 * 10^9 make a token, so that a bucket for `rpm` requests a minute gains `rpm` parts
-- in a nanosecond, and nothing is rounded but the wait, to a nanosecond. The map of buckets is an
-- association list; the lock of an entry makes each check one step.
use angavu_intelligence_back.Common.{
  find, insert, ℕ, ◌+◌, ◌-◌, ◌*◌, ◌/◌, ◌%◌, ◌^◌, ◌≤◌, min, max, Bool, true, false, Option, none,
  some, List, [], ◌∷◌, String, str_eq, leb, ltb, Result, ok, err, if◌then◌else◌,
}
use angavu_intelligence_back.Metering.{BuyerTier, free, starter, pro, enterprise}
pub mod Bucket
pub mod Limit
mod Tests

-- The parts of a token.
abbrev pub token : ℕ
token = 60000000000

pub record TokenBucket : Type 0 where
  pub tokens : ℕ
  pub max_tokens : ℕ
  pub refill_rate : ℕ
  pub last_refill : ℕ

-- `TokenBucket::new(rpm, rpm / 60.0)`
unfoldable pub new : ℕ → ℕ → TokenBucket
new now rpm = record {
  tokens = rpm * token;
  max_tokens = rpm * token;
  refill_rate = rpm;
  last_refill = now;
}

-- `duration_since` is zero for a time that is later.
unfoldable pub refill : ℕ → TokenBucket → TokenBucket
refill now b = record b {
  tokens = min (b.tokens + b.refill_rate * (now - b.last_refill)) b.max_tokens;
  last_refill = now;
}

unfoldable pub try_consume : ℕ → TokenBucket → TokenBucket × Bool
try_consume now b =
    let r = refill now b in
    if leb token r.tokens then (record r { tokens = r.tokens - token }, true) else (r, false)

-- The whole number that is nearest to `a / r`, and of two that are as near the even one.
unfoldable pub nearest : ℕ → ℕ → ℕ
nearest a r =
    let rest = 2 * (a % r) in
    if ltb rest r then a / r else if ltb r rest then a / r + 1 else a / r + (a / r) % 2

-- At a rate of 0 the conversion of the infinite wait panics in the code; here the wait is then 0.
unfoldable pub retry_after : TokenBucket → ℕ
unfolding nearest
retry_after b = if leb token b.tokens then 0 else nearest (token - b.tokens) b.refill_rate

abbrev pub Buckets : Type 0
Buckets = List (String × TokenBucket)

-- `Ok(remaining)` or `Err(retry_after)`; `as u32` keeps what fits in 32 bits.
unfoldable pub answer : TokenBucket × Bool → Result {0, 0} ℕ ℕ
answer (b, true) = ok (min (b.tokens / token) (2 ^ 32 - 1))
answer (b, false) = err (retry_after b)

abbrev pub get_or : TokenBucket → Option TokenBucket → TokenBucket
get_or b none = b
get_or b (some c) = c

unfoldable pub check_bucket : ℕ → String → ℕ → Buckets → Buckets × Result {0, 0} ℕ ℕ
check_bucket now key rpm m =
    let r = try_consume now (get_or (new now rpm) (find key m)) in (insert key r.0 m, answer r)

pub record RateLimiter : Type 0 where
  pub buckets : Buckets
  pub default_rpm : ℕ

unfoldable pub check : ℕ → String → ℕ → RateLimiter → RateLimiter × Result {0, 0} ℕ ℕ
check now key_id tier_rpm l =
    let (m, r) = check_bucket now key_id (max tier_rpm l.default_rpm) l.buckets in
    (record l { buckets = m }, r)

pub record IpRateLimiter : Type 0 where
  pub buckets : Buckets
  pub rpm : ℕ

unfoldable pub check_ip : ℕ → String → IpRateLimiter → IpRateLimiter × Result {0, 0} ℕ ℕ
check_ip now ip l =
    let (m, r) = check_bucket now ip l.rpm l.buckets in (record l { buckets = m }, r)

unfoldable pub rate_limit_per_minute : BuyerTier → ℕ
rate_limit_per_minute free = 10
rate_limit_per_minute starter = 100
rate_limit_per_minute pro = 1000
rate_limit_per_minute enterprise = 10000

pub record Claims : Type 0 where
  pub key_id : String
  pub tier : BuyerTier

-- `next` is what the rest of the chain answers; a wait is told in whole seconds.
pub data Response (A : Type 0) : Type 0 where
  unauthorized : Response A
  too_many_requests : ℕ → Response A
  passed : A → ℕ → Response A

unfoldable pub respond : {A : Type 0} → A → Result {0, 0} ℕ ℕ → Response A
respond next (ok remaining) = passed next remaining
respond next (err wait) = too_many_requests (wait / 1000000000)

unfoldable pub rate_limit_middleware :
    {A : Type 0} → ℕ → Option Claims → A → RateLimiter → RateLimiter × Response A
rate_limit_middleware now none next l = (l, unauthorized)
rate_limit_middleware now (some claims) next l =
    let (l', r) = check now claims.key_id (rate_limit_per_minute claims.tier) l in
    (l', respond next r)
