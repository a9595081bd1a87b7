-- ===== src/Metering/Quota.antt =====
-- How many requests of an organisation are admitted within a period and within a day.
use angavu_intelligence_back.Common.{
  All, ap₂, ℕ, suc, ◌+◌, ◌-◌, ◌≤◌, ◌≡◌, ◌≢◌, ◌∙◌, ap, sym, subst, refl, Bool, true, false, some,
  List, [], ◌∷◌, String, length, retain, ltb, ◌==◌, Bool-cases, inl, inr, arith,
}
use angavu_intelligence_back.Metering.{
  Claims, Key, usage_key, daily_usage_key, monthly_limit, daily_limit, admitted,
  usage_limit_exceeded,
}
use angavu_intelligence_back.Metering.Counters.{Counters}
use angavu_intelligence_back.Metering.Middleware.{
  is_enterprise, expire_new, check_limits, count_day, count_month, usage_metering, serve_all,
}

abbrev is_monthly : Key → Bool
is_monthly (usage_key _ _) = true
is_monthly (daily_usage_key _ _) = false

monthly_ne : (o p o' d : String) → usage_key o p ≢ daily_usage_key o' d
monthly_ne o p o' d e = ground (arith, ap is_monthly e)

-- An increment that does not fail.
abbrev pub Reliable : Counters → Type 0
Reliable redis = (k : Key) (s : redis.State) → (r : redis.State × ℕ) × (redis.incr k s ≡ some r)

module _ (redis : Counters) where
  get-expire_new :
      (k j : Key) (ttl n : ℕ) (s : redis.State)
      → redis.get j (expire_new redis k ttl n s) ≡ redis.get j s
  get-expire_new k j ttl n s = elim (Bool-cases (n == 1)) [
    | inl e ↦ rw e (redis.get-expire k j ttl s)
    | inr e ↦ rw e refl
  ]

  module _ (claims : Claims) (period date : String) (s s₁ s₃ : redis.State) (n m : ℕ) where
    count_month-incr :
        let month = usage_key claims.org_id period in
        let day = daily_usage_key claims.org_id date in
        redis.incr month s ≡ some (s₁, n)
        → redis.incr day (expire_new redis month 5184000 n s₁) ≡ some (s₃, m)
        → count_month redis claims period date s
          ≡ (expire_new redis day 86400 m s₃, check_limits redis claims.tier n m)
    unfolding count_month count_day
    count_month-incr e f = rw (e, count_month) (rw (f, count_day) refl)

    -- Both increments succeed, and both counters go up by one, whatever the answer is.
    counted :
        let month = usage_key claims.org_id period in
        let day = daily_usage_key claims.org_id date in
        redis.incr month s ≡ some (s₁, n)
        → redis.incr day (expire_new redis month 5184000 n s₁) ≡ some (s₃, m)
        → let (s', a) = count_month redis claims period date s in
          (a ≡ check_limits redis claims.tier (suc (redis.get month s)) (suc (redis.get day s)))
          × (redis.get month s' ≡ suc (redis.get month s))
          × (redis.get day s' ≡ suc (redis.get day s))
    counted e f =
        let month = usage_key claims.org_id period in
        let day = daily_usage_key claims.org_id date in
        let s₂ = expire_new redis month 5184000 n s₁ in
        let (n_eq, up) = redis.incr-get month s s₁ n e in
        let (m_eq, up') = redis.incr-get day s₂ s₃ m f in
        let month₂ : redis.get month s₂ ≡ suc (redis.get month s) =
          get-expire_new month month 5184000 n s₁ ∙ up in
        let day₂ : redis.get day s₂ ≡ redis.get day s =
          get-expire_new month day 5184000 n s₁
          ∙ redis.incr-get_ne month day s s₁ n e (λ q. monthly_ne _ _ _ _ (sym q)) in
        rw (count_month-incr e f) (
          ap₂ (check_limits redis claims.tier) n_eq (m_eq ∙ ap suc day₂),
          get-expire_new day month 86400 m s₃
              ∙ redis.incr-get_ne day month s₂ s₃ m f (monthly_ne _ _ _ _)
              ∙ month₂,
          get-expire_new day day 86400 m s₃ ∙ up' ∙ ap suc day₂,
        )

module _ (redis : Counters) (ok : Reliable redis) (claims : Claims) (period : String)
    (tier : is_enterprise claims.tier ≡ false) where
  abbrev month : Key
  month = usage_key claims.org_id period

  abbrev day : String → Key
  day date = daily_usage_key claims.org_id date

  metered_lem :
      (date : String) (s : redis.State)
      → let (s', a) = usage_metering redis (some claims) period date s in
        (a
          ≡ check_limits redis claims.tier (suc (redis.get month s)) (suc (redis.get (day date) s)))
        × (redis.get month s' ≡ suc (redis.get month s))
        × (redis.get (day date) s' ≡ suc (redis.get (day date) s))
  unfolding usage_metering
  metered_lem date s =
      let ((s₁, n), e) = ok month s in
      let ((s₃, m), f) = ok (day date) (expire_new redis month 5184000 n s₁) in
      let both = counted redis claims period date s s₁ s₃ n m e f in rw (tier, usage_metering) both

  -- A request is admitted only where neither count passes its limit.
  admitted-check_limits :
      (n m : ℕ)
      → admitted (check_limits redis claims.tier n m) ≡ true
      → (n ≤ monthly_limit claims.tier) × (m ≤ daily_limit claims.tier)
  unfolding check_limits
  admitted-check_limits n m h = ground arith

  -- Where the counters of Redis do not fail, the requests of an organisation that are admitted within
  -- a period, in whatever tier but enterprise, are no more than its monthly limit less the count that
  -- the period had before.
  pub serve_all-monthly_limit :
      (dates : List String) (s : redis.State)
      → length (retain admitted (serve_all redis claims period dates s).1)
        ≤ monthly_limit claims.tier - redis.get month s
  unfolding serve_all retain
  serve_all-monthly_limit [] s = omega arith
  serve_all-monthly_limit (date ∷ dates) s =
      let (s', a) = usage_metering redis (some claims) period date s in
      let (answer, up, _) = metered_lem date s in
      let rest = serve_all-monthly_limit dates s' in
      elim (Bool-cases (admitted a)) [
        | inl sent ↦
            let (below, _) = admitted-check_limits _ _ (ap admitted (sym answer) ∙ sent) in
            rw sent (omega (arith, rest, up, below))
        | inr held ↦ rw held (omega (arith, rest, up))
      ]

  -- Where the counters of Redis do not fail, the requests of an organisation that are admitted on
  -- one date, in whatever tier but enterprise, are no more than its daily limit less the count that
  -- the date had before.
  pub serve_all-daily_limit :
      (date : String) (dates : List String) (s : redis.State)
      → All (λ d. d ≡ date) dates
      → length (retain admitted (serve_all redis claims period dates s).1)
        ≤ daily_limit claims.tier - redis.get (day date) s
  unfolding serve_all retain
  serve_all-daily_limit date [] s all = omega arith
  serve_all-daily_limit date (d ∷ dates) s all =
      let (s', a) = usage_metering redis (some claims) period d s in
      let (answer, _, up) = metered_lem d s in
      let rest = serve_all-daily_limit date dates s' all.1 in
      let same : redis.get (day date) s' ≡ suc (redis.get (day date) s) =
        subst (λ x. redis.get (day x) s' ≡ suc (redis.get (day x) s)) all.0 up in
      elim (Bool-cases (admitted a)) [
        | inl sent ↦
            let (_, below) = admitted-check_limits _ _ (ap admitted (sym answer) ∙ sent) in
            let below' : suc (redis.get (day date) s) ≤ daily_limit claims.tier =
              subst (λ x. suc (redis.get (day x) s) ≤ daily_limit claims.tier) all.0 below in
            rw sent (omega (arith, rest, same, below'))
        | inr held ↦ rw held (omega (arith, rest, same))
      ]

  get-serve_all :
      (dates : List String) (s : redis.State)
      → redis.get month (serve_all redis claims period dates s).0 ≡ redis.get month s + length dates
  unfolding serve_all
  get-serve_all [] s = omega arith
  get-serve_all (date ∷ dates) s =
      let s' = (usage_metering redis (some claims) period date s).0 in
      omega (arith, get-serve_all dates s', (metered_lem date s).1)

  -- Refused requests count as well, where the counters of Redis do not fail and the tier is not
  -- enterprise: once as many requests as the monthly limit were made within a period, admitted or
  -- refused, and be it on one day, every further request of the period is refused.
  pub serve_all-exhausted :
      (dates : List String) (date : String) (s : redis.State)
      → monthly_limit claims.tier ≤ redis.get month s + length dates
      → let s' = (serve_all redis claims period dates s).0 in
        (usage_metering redis (some claims) period date s').1
        ≡ usage_limit_exceeded (suc (redis.get month s + length dates)) (monthly_limit claims.tier)
  unfolding check_limits
  serve_all-exhausted dates date s h =
      let s' = (serve_all redis claims period dates s).0 in
      let (answer, _, _) = metered_lem date s' in
      let total : redis.get month s' ≡ redis.get month s + length dates = get-serve_all dates s in
      let over : ltb (monthly_limit claims.tier) (suc (redis.get month s + length dates)) ≡ true =
        ground (arith, h) in
      answer ∙ rw (total, over) refl
