-- ===== src/Subscription/Renewal/Sweep.antt =====
-- What a run leaves behind, and what no run ever reaches.
use angavu_intelligence_back.Common.{
  ℕ, zero, suc, ◌+◌, ◌≤◌, ◌≡◌, ◌⊎◌, refl, ap, subst, ◌∙◌, Bool, true, ◌&&◌, some, List, [], ◌∷◌,
  ◌++◌, map, any, retain, false, String, str_eq, str_eq_iff, get_elem?, ltb, All, Bool-cases, inl,
  inr, arith,
}
use angavu_intelligence_back.Subscription.{Subscription, SubscriptionRow, days}
use angavu_intelligence_back.Subscription.Store.{Db, has_id}
use angavu_intelligence_back.Subscription.Renewal.{is_due, due, grace_expired, process_renewals}
use angavu_intelligence_back.Subscription.Renewal.Batch.{DistinctIds, map-DistinctIds}
use angavu_intelligence_back.Subscription.Renewal.Outcome.{
  settled, renewed, process_renewals-rows, settled-keys,
}

and_false : (a b : Bool) → a && (b && false) ≡ false
and_false a b = ground arith

not_due :
    (now : ℕ) (r : SubscriptionRow) → r.current_period_end + days 1 ≤ now → is_due now r ≡ false
not_due now r h =
    let late : ltb now (r.current_period_end + days 1) ≡ false = ground arith in
    rw late (and_false _ _)

not_past_due :
    (s : String)
    → (str_eq s "active" ≡ true) ⊎ (str_eq s "trial" ≡ true)
    → str_eq s "past_due" ≡ false
not_past_due s (inl e) = rw ((str_eq_iff s "active").0 e)
not_past_due s (inr e) = rw ((str_eq_iff s "trial").0 e)

module _ (invoice : Subscription → Bool) (stk_push : Subscription → String → Bool) where
  settled-grace :
      (now : ℕ) (r : SubscriptionRow) → grace_expired now (settled invoice stk_push now r) ≡ false
  settled-grace now r = elim (Bool-cases (grace_expired now (renewed invoice stk_push now r))) [
    | inl e ↦ rw e
    | inr e ↦ rw e e
  ]

  All-grace :
      (now : ℕ) (rows : List SubscriptionRow)
      → All (λ r. grace_expired now r ≡ false) (map (settled invoice stk_push now) rows)
  All-grace now [] = tt
  All-grace now (r ∷ rows) = (settled-grace now r, All-grace now rows)

  -- Where ids are a primary key, after a run at `now` no subscription is past due with a grace
  -- period that ended before `now`.
  pub process_renewals-grace :
      (now : ℕ) (db : Db)
      → DistinctIds db.rows
      → All (λ r. grace_expired now r ≡ false) (process_renewals invoice stk_push now db).0.rows
  process_renewals-grace now db h =
      rw (process_renewals-rows invoice stk_push now db h) (All-grace now db.rows)

  pub cancelled-settled :
      (now : ℕ) (r : SubscriptionRow)
      → str_eq r.status "cancelled" ≡ true
      → settled invoice stk_push now r ≡ r
  cancelled-settled now r h =
      let not_active : str_eq r.status "active" ≡ false =
        rw ((str_eq_iff r.status "cancelled").0 h) in
      let not_trial : str_eq r.status "trial" ≡ false =
        rw ((str_eq_iff r.status "cancelled").0 h) in
      let not_late : str_eq r.status "past_due" ≡ false =
        rw ((str_eq_iff r.status "cancelled").0 h) in
      rw (not_active, not_trial, not_late) refl

  stale-settled :
      (now : ℕ) (r : SubscriptionRow)
      → (str_eq r.status "active" ≡ true) ⊎ (str_eq r.status "trial" ≡ true)
      → r.current_period_end + days 1 ≤ now
      → settled invoice stk_push now r ≡ r
  stale-settled now r s h = rw (not_due now r h, not_past_due r.status s) refl

  get_elem?-map :
      (f : SubscriptionRow → SubscriptionRow) (rows : List SubscriptionRow) (i : ℕ)
      (r : SubscriptionRow)
      → get_elem? rows i ≡ some r
      → get_elem? (map f rows) i ≡ some (f r)
  get_elem?-map f [] i r h = absurd (ground arith)
  get_elem?-map f (x ∷ rows) zero r h = ground arith
  get_elem?-map f (x ∷ rows) (suc i) r h = get_elem?-map f rows i r h

  pub process-DistinctIds :
      (now : ℕ) (db : Db)
      → DistinctIds db.rows
      → DistinctIds (process_renewals invoice stk_push now db).0.rows
  process-DistinctIds now db h = rw (process_renewals-rows invoice stk_push now db h) (
      map-DistinctIds (settled invoice stk_push now) (λ r. (settled-keys invoice stk_push now r).0)
        db.rows h)

-- A run at a time, with the outcomes that the invoices and the debits have in that run.
pub record Run : Type 0 where
  pub now : ℕ
  pub invoice : Subscription → Bool
  pub stk_push : Subscription → String → Bool

abbrev pub after_run : Run → Db → Db
after_run run db = (process_renewals run.invoice run.stk_push run.now db).0

-- The runs, in order.
unfoldable pub runs : List Run → Db → Db
runs [] db = db
runs (run ∷ rest) db = runs rest (after_run run db)

-- The rows that the loops of the runs went over: what is invoiced, debited or renewed is one of them.
unfoldable pub handled : List Run → Db → List SubscriptionRow
handled [] db = []
handled (run ∷ rest) db = due run.now db.rows ++ handled rest (after_run run db)

any-append :
    (p : SubscriptionRow → Bool) (xs ys : List SubscriptionRow)
    → any p xs ≡ false
    → any p ys ≡ false
    → any p (xs ++ ys) ≡ false
unfolding any
any-append p [] ys h k = k
any-append p (x ∷ xs) ys h k = ground (arith, any-append p xs ys)

-- A list of rows with other ids has none with this id.
others-due :
    (now : ℕ) (id : String) (rows : List SubscriptionRow)
    → All (λ r. str_eq r.id id ≡ false) rows
    → any (has_id id) (due now rows) ≡ false
unfolding any retain
others-due now id [] h = refl
others-due now id (r ∷ rows) (first, h) = ground (arith, others-due now id rows h, first)

head_kept :
    (now : ℕ) (r : SubscriptionRow) (rows : List SubscriptionRow)
    → All (λ x. str_eq x.id r.id ≡ false) rows
    → is_due now r ≡ false
    → any (has_id r.id) (due now (r ∷ rows)) ≡ false
unfolding retain
head_kept now r rows fresh h = rw h (others-due now r.id rows fresh)

other_id :
    (id : String) (rows : List SubscriptionRow) (i : ℕ) (r : SubscriptionRow)
    → All (λ x. str_eq x.id id ≡ false) rows
    → get_elem? rows i ≡ some r
    → str_eq id r.id ≡ false
other_id id [] i r h g = cc
other_id id (x ∷ rows) zero r (first, h) g =
    let same : x ≡ r = cc in
    subst (λ y. str_eq id y.id ≡ false) same
      (ground (arith, str_eq_iff x.id id, str_eq_iff id x.id, first))
other_id id (x ∷ rows) (suc i) r (first, h) g = other_id id rows i r h g

-- The only row with the id of a row that is not due is not among those that are due.
not_due-due :
    (now : ℕ) (rows : List SubscriptionRow) (i : ℕ) (r : SubscriptionRow)
    → DistinctIds rows
    → get_elem? rows i ≡ some r
    → is_due now r ≡ false
    → any (has_id r.id) (due now rows) ≡ false
unfolding any retain
not_due-due now [] i r d g h = refl
not_due-due now (x ∷ rows) zero r (fresh, d) g h =
    let same : x ≡ r = cc in
    subst (λ y. is_due now y ≡ false → any (has_id y.id) (due now (x ∷ rows)) ≡ false) same
      (head_kept now x rows fresh) h
not_due-due now (x ∷ rows) (suc i) r (fresh, d) g h =
    ground (arith, other_id x.id rows i r fresh g, not_due-due now rows i r d g h)

-- Where ids are a primary key, an active or trial subscription whose period ended a day or more
-- before every one of a series of runs is left as it is by all of them, so it is not renewed, marked
-- past due or suspended, and none of the runs goes over it, so no invoice is created and no debit is
-- started for its id. The invoices and debits of each run may succeed or fail in any way.
pub runs-stale :
    (rounds : List Run) (db : Db) (i : ℕ) (r : SubscriptionRow)
    → DistinctIds db.rows
    → get_elem? db.rows i ≡ some r
    → (str_eq r.status "active" ≡ true) ⊎ (str_eq r.status "trial" ≡ true)
    → All (λ run. r.current_period_end + days 1 ≤ run.now) rounds
    → (get_elem? (runs rounds db).rows i ≡ some r) × (any (has_id r.id) (handled rounds db) ≡ false)
unfolding runs handled any
runs-stale [] db i r d g s h = (g, refl)
runs-stale (run ∷ rest) db i r d g s h =
    let db' = after_run run db in
    let kept : get_elem? db'.rows i ≡ some r =
      rw (process_renewals-rows run.invoice run.stk_push run.now db d) (
        get_elem?-map run.invoice run.stk_push (settled run.invoice run.stk_push run.now) db.rows i
          r g
        ∙ ap some (stale-settled run.invoice run.stk_push run.now r s h.0)) in
    let (same, none_of) =
      runs-stale rest db' i r (process-DistinctIds run.invoice run.stk_push run.now db d) kept s
        h.1 in
    (
      same,
      any-append (has_id r.id) (due run.now db.rows) (handled rest db')
          (not_due-due run.now db.rows i r d g (not_due run.now r h.0)) none_of,
    )
