-- ===== src/Subscription/Renewal/Outcome.antt =====
-- What a run of `process_renewals` makes of each row, and what its report says.
use angavu_intelligence_back.Common.{
  ℕ, ◌≡◌, ◌⊎◌, refl, sym, ap, ◌∙◌, Bool, Option, none, some, List, [], ◌∷◌, map, String, retain,
  if◌then◌else◌, Bool-cases, inl, inr, arith,
}
use angavu_intelligence_back.Subscription.{Subscription, SubscriptionRow, into_subscription}
use angavu_intelligence_back.Subscription.Store.{Db, has_id, update_where}
use angavu_intelligence_back.Subscription.Renewal.{
  RenewalReport, empty_report, is_due, advance_row, past_due_row, grace_expired, suspend_row,
  is_free, debit, renew, renew_all, suspend_all, process_renewals,
}
use angavu_intelligence_back.Subscription.Renewal.Batch.{
  DistinctIds, apply_all, apply_all-map, map-DistinctIds,
}

rows-suspend_all :
    (now : ℕ) (ds rows : List SubscriptionRow) (report : RenewalReport)
    → (suspend_all now ds (rows, report)).0 ≡ apply_all (λ _. suspend_row now) ds rows
unfolding suspend_all apply_all
rows-suspend_all now [] rows report = refl
rows-suspend_all now (d ∷ ds) rows report = rows-suspend_all now ds _ _

abbrev pub SameKeys : SubscriptionRow → SubscriptionRow → Type 0
SameKeys r r' = (r'.id ≡ r.id) × (r'.org_id ≡ r.org_id)

map-map_rows :
    (f g : SubscriptionRow → SubscriptionRow) (rows : List SubscriptionRow)
    → map f (map g rows) ≡ map (λ r. f (g r)) rows
map-map_rows f g [] = refl
map-map_rows f g (r ∷ rows) = ap (◌∷◌ (f (g r))) (map-map_rows f g rows)

module _ (invoice : Subscription → Bool) (stk_push : Subscription → String → Bool) where
  abbrev pub keep : SubscriptionRow → SubscriptionRow
  keep r = r

  abbrev pub debited : ℕ → Subscription → Option String → SubscriptionRow → SubscriptionRow
  debited now sub none = past_due_row now
  debited now sub (some phone) = if stk_push sub phone then keep else past_due_row now

  -- What the loop does to a row that is due: it is advanced for nothing in the free tier, past due
  -- where the debit cannot be started, and otherwise left as it is.
  abbrev pub verdict : ℕ → SubscriptionRow → SubscriptionRow → SubscriptionRow
  verdict now d =
      let sub = into_subscription d in
      if is_free sub.tier
      then advance_row now
      else if invoice sub
      then debited now sub sub.mpesa_phone
      else keep

  abbrev pub renewed : ℕ → SubscriptionRow → SubscriptionRow
  renewed now r = if is_due now r then verdict now r r else r

  abbrev pub settled : ℕ → SubscriptionRow → SubscriptionRow
  settled now r = let r' = renewed now r in if grace_expired now r' then suspend_row now r' else r'

  update-same :
      (p : SubscriptionRow → Bool) (rows : List SubscriptionRow) → update_where p keep rows ≡ rows
  unfolding update_where
  update-same p [] = refl
  update-same p (r ∷ rows) = ground (arith, update-same p rows)

  debited-cases :
      (now : ℕ) (sub : Subscription) (phone : Option String) (r : SubscriptionRow)
      → (debited now sub phone r ≡ r) ⊎ (debited now sub phone r ≡ past_due_row now r)
  debited-cases now sub none r = inr refl
  debited-cases now sub (some phone) r = elim (Bool-cases (stk_push sub phone)) [
    | inl e ↦ inl (rw e)
    | inr e ↦ inr (rw e)
  ]

  verdict-keys : (now : ℕ) (d r : SubscriptionRow) → SameKeys r (verdict now d r)
  verdict-keys now d r =
      let sub = into_subscription d in
      elim (Bool-cases (is_free sub.tier)) [
        | inl e ↦ rw e (refl, refl)
        | inr e ↦ elim (Bool-cases (invoice sub)) [
          | inl i ↦
              rw (e, i)
                (elim (debited-cases now sub sub.mpesa_phone r) [
                  | inl same ↦ rw same (refl, refl)
                  | inr late ↦ rw late (refl, refl)
                ])
          | inr i ↦ rw (e, i) (refl, refl)
        ]
      ]

  rows-debit :
      (now : ℕ) (sub : Subscription) (phone : Option String) (rows : List SubscriptionRow)
      (report : RenewalReport)
      → (debit invoice stk_push now sub phone (rows, report)).0
        ≡ update_where (has_id sub.id) (debited now sub phone) rows
  unfolding debit
  rows-debit now sub none rows report = refl
  rows-debit now sub (some phone) rows report = elim (Bool-cases (stk_push sub phone)) [
    | inl e ↦ rw e (sym (update-same (has_id sub.id) rows))
    | inr e ↦ rw e
  ]

  rows-renew :
      (now : ℕ) (d : SubscriptionRow) (rows : List SubscriptionRow) (report : RenewalReport)
      → (renew invoice stk_push now d (rows, report)).0
        ≡ update_where (has_id (into_subscription d).id) (verdict now d) rows
  unfolding renew
  rows-renew now d rows report =
      let sub = into_subscription d in
      elim (Bool-cases (is_free sub.tier)) [
        | inl e ↦ rw e
        | inr e ↦ elim (Bool-cases (invoice sub)) [
          | inl i ↦ rw (e, i) (rows-debit now sub sub.mpesa_phone rows _)
          | inr i ↦ rw (e, i) (sym (update-same (has_id sub.id) rows))
        ]
      ]

  rows-renew_all :
      (now : ℕ) (ds rows : List SubscriptionRow) (report : RenewalReport)
      → (renew_all invoice stk_push now ds (rows, report)).0 ≡ apply_all (verdict now) ds rows
  unfolding renew_all apply_all into_subscription
  rows-renew_all now [] rows report = refl
  rows-renew_all now (d ∷ ds) rows report =
      let p = renew invoice stk_push now d (rows, report) in
      rows-renew_all now ds p.0 p.1 ∙ ap (apply_all (verdict now) ds) (rows-renew now d rows report)

  renewed-keys : (now : ℕ) (r : SubscriptionRow) → SameKeys r (renewed now r)
  renewed-keys now r = elim (Bool-cases (is_due now r)) [
    | inl e ↦ rw e (verdict-keys now r r)
    | inr e ↦ rw e (refl, refl)
  ]

  pub settled-keys : (now : ℕ) (r : SubscriptionRow) → SameKeys r (settled now r)
  settled-keys now r = elim (Bool-cases (grace_expired now (renewed now r))) [
    | inl e ↦ rw e (renewed-keys now r)
    | inr e ↦ rw e (renewed-keys now r)
  ]

  -- Where ids are a primary key, a run of `process_renewals` treats every row by itself, as `settled`
  -- says, whatever the other rows: a row that is due gets its verdict, and then a row whose grace
  -- period is over is suspended.
  pub process_renewals-rows :
      (now : ℕ) (db : Db)
      → DistinctIds db.rows
      → (process_renewals invoice stk_push now db).0.rows ≡ map (settled now) db.rows
  unfolding process_renewals
  process_renewals-rows now db h =
      let due = retain (is_due now) db.rows in
      let renewed_rows : (renew_all invoice stk_push now due (db.rows, empty_report)).0
          ≡ map (renewed now) db.rows =
        rows-renew_all now due db.rows empty_report
        ∙ apply_all-map (verdict now) (λ d r. (verdict-keys now d r).0) (is_due now) db.rows h in
      let suspend : List SubscriptionRow → List SubscriptionRow =
        λ rows. apply_all (λ _. suspend_row now) (retain (grace_expired now) rows) rows in
      rows-suspend_all now _ _ _
      ∙ ap suspend renewed_rows
      ∙ apply_all-map (λ _. suspend_row now) (λ d r. refl) (grace_expired now)
          (map (renewed now) db.rows)
          (map-DistinctIds (renewed now) (λ r. (renewed-keys now r).0) db.rows h)
      ∙ map-map_rows _ (renewed now) db.rows
