-- ===== src/Subscription/Tables.antt =====
-- Lemmas on the statements: which rows a query finds after an update.
use angavu_intelligence_back.Common.{
  ◌≡◌, refl, Bool, true, false, none, some, List, [], ◌∷◌, String, leb, retain, any, if◌then◌else◌,
  Bool-cases, Option-cases, inl, inr, arith,
}
use mathlib.Core.Option
use angavu_intelligence_back.Subscription.{Subscription, SubscriptionRow, into_subscription}
use angavu_intelligence_back.Subscription.Store.{
  Db, open_for, update_where, latest, get_active_subscription,
}

module _ (p : SubscriptionRow → Bool) where
  pub retain-none : (rows : List SubscriptionRow) → any p rows ≡ false → retain p rows ≡ []
  unfolding any retain
  retain-none [] h = refl
  retain-none (r ∷ rows) h = ground (arith, retain-none rows)

  pub latest-some :
      (rows : List SubscriptionRow)
      → any p rows ≡ true
      → (r : SubscriptionRow) × (latest (retain p rows) ≡ some r)
  unfolding any retain latest
  latest-some [] h = absurd (ground arith)
  latest-some (r ∷ rows) h = elim (Option-cases (latest (retain p rows))) [
    | inl n ↦ elim (Bool-cases (p r)) [
      | inl here ↦ (r, rw (here, n))
      | inr there ↦ let (s, e) = latest-some rows (ground arith) in (s, rw (there, e))
    ]
    | inr (s, e) ↦ elim (Bool-cases (p r)) [
      | inl here ↦ (if leb s.created_at r.created_at then r else s, rw (here, e))
      | inr there ↦ (s, rw (there, e))
    ]
  ]

  -- An update of the rows that a query finds, by which they are still found, at the same time of
  -- creation.
  pub latest-update :
      (f : SubscriptionRow → SubscriptionRow) (rows : List SubscriptionRow)
      → ((r : SubscriptionRow) → p r ≡ true → p (f r) ≡ true)
      → ((r : SubscriptionRow) → (f r).created_at ≡ r.created_at)
      → latest (retain p (update_where p f rows)) ≡ Option.map f (latest (retain p rows))
  unfolding retain latest update_where
  latest-update f [] stays same = refl
  latest-update f (r ∷ rows) stays same = elim (Bool-cases (p r)) [
    | inl here ↦ elim (Option-cases (latest (retain p rows))) [
      | inl n ↦ ground (arith, latest-update f rows stays same, stays r)
      | inr (s, e) ↦ ground (arith, latest-update f rows stays same, stays r, same r, same s)
    ]
    | inr there ↦ ground (arith, latest-update f rows stays same)
  ]

  -- An update by which they are found no more.
  pub retain-update :
      (f : SubscriptionRow → SubscriptionRow) (rows : List SubscriptionRow)
      → ((r : SubscriptionRow) → p (f r) ≡ false)
      → retain p (update_where p f rows) ≡ []
  unfolding retain update_where
  retain-update f [] gone = refl
  retain-update f (r ∷ rows) gone = ground (arith, retain-update f rows gone, gone r)

  -- Rows that neither the query nor the update touches.
  pub retain-update_other :
      (q : SubscriptionRow → Bool) (f : SubscriptionRow → SubscriptionRow)
      (rows : List SubscriptionRow)
      → ((r : SubscriptionRow) → q r ≡ true → (p r ≡ false) × (p (f r) ≡ false))
      → retain p (update_where q f rows) ≡ retain p rows
  unfolding retain update_where
  retain-update_other q f [] apart = refl
  retain-update_other q f (r ∷ rows) apart =
      ground (arith, retain-update_other q f rows apart, apart r)

pub get_active-none :
    (org_id : String) (db : Db)
    → any (open_for org_id) db.rows ≡ false
    → get_active_subscription org_id db ≡ none
unfolding get_active_subscription latest
get_active-none org_id db h = rw (retain-none (open_for org_id) db.rows h, get_active_subscription)

pub get_active-some :
    (org_id : String) (db : Db)
    → any (open_for org_id) db.rows ≡ true
    → (s : Subscription) × (get_active_subscription org_id db ≡ some s)
unfolding get_active_subscription
get_active-some org_id db h =
    let (r, e) = latest-some (open_for org_id) db.rows h in
    (into_subscription r, rw (e, get_active_subscription))
