-- ===== src/RateLimit/Tests.antt =====
-- Examples for the rate limits: a key of the free tier, and one for a request a minute.
use angavu_intelligence_back.Common.{
  find, insert, ℕ, ◌+◌, ◌-◌, ◌*◌, ◌≤◌, ◌≡◌, refl, true, none, some, List, [], ◌∷◌, String, ok, err,
  arith,
}
use angavu_intelligence_back.Metering.{free}
use angavu_intelligence_back.RateLimit.{
  token, TokenBucket, new, refill, try_consume, retry_after, answer, check_bucket, RateLimiter,
  check, check_ip, unauthorized, too_many_requests, respond, rate_limit_middleware,
}
use angavu_intelligence_back.RateLimit.Limit.{
  Request, ask, is_ok, admitted, InOrder, admitted-le, check-retry,
}

abbrev seconds : ℕ → ℕ
seconds n = n * 1000000000

-- A bucket for one request a minute, which is empty.
abbrev drained : TokenBucket
drained = record { tokens = 0; max_tokens = token; refill_rate = 1; last_refill = 0 }

abbrev limiter : RateLimiter
limiter = record { buckets = ("k", drained) ∷ []; default_rpm = 10 }

abbrev request : ℕ → String → Request
request s key = record { now = seconds s; key_id = key; tier_rpm = 1 }

abbrev requests : List Request
requests = request 30 "k" ∷ request 60 "k" ∷ request 61 "j" ∷ request 121 "k" ∷ []

served : admitted "k" requests limiter ≡ 2
unfolding admitted check check_bucket find insert try_consume refill answer new retry_after
served = refl

held : find "k" limiter.buckets ≡ some drained
unfolding find
held = refl

anonymous : (rate_limit_middleware {A = ℕ} 0 none 7 limiter).1 ≡ unauthorized
unfolding rate_limit_middleware
anonymous = refl

refused_free :
    (rate_limit_middleware {A = ℕ} 0 (some (record { key_id = "k"; tier = free })) 7 limiter).1
    ≡ too_many_requests 60
unfolding rate_limit_middleware check check_bucket find insert try_consume refill answer retry_after
    respond
refused_free = refl

first_by_ip : (check_ip 0 "10.0.0.1" (record { buckets = []; rpm = 60 })).1 ≡ ok 59
unfolding check_ip check_bucket find insert try_consume refill answer new
first_by_ip = refl

ordered : InOrder 0 (seconds 121) requests
unfolding InOrder
ordered = (omega arith, (omega arith, (omega arith, (omega arith, omega arith))))

admitted-le_example : admitted "k" requests limiter * token ≤ 0 + 1 * (seconds 121 - 0)
admitted-le_example = admitted-le "k" (seconds 121) requests limiter drained held ordered

denied : (ask (request 30 "k") limiter).1 ≡ err (seconds 30)
unfolding check check_bucket find insert try_consume refill answer retry_after
denied = refl

check-retry_example : is_ok (ask (request 61 "k") (ask (request 30 "k") limiter).0).1 ≡ true
check-retry_example =
    check-retry (request 30 "k") (request 61 "k") limiter drained (seconds 30) held (omega arith)
      (omega arith) denied refl (omega arith)
