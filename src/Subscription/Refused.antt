-- ===== src/Subscription/Refused.antt =====
-- When the keys of the table refuse a statement: never one of `create_subscription`, whose own check of an
-- open subscription comes first, but some of `reactivate_subscription`.
use angavu_intelligence_back.Common.{
  ℕ, ◌+◌, ◌≤◌, ◌<◌, ◌≡◌, refl, Bool, true, false, some, List, [], ◌∷◌, String, str_eq, str_eq_iff,
  any, retain, length, ok, err, if◌then◌else◌, Bool-cases, inl, inr, arith,
}
use angavu_intelligence_back.Subscription.{SubscriptionRow}
use angavu_intelligence_back.Subscription.Store.{
  Db, already_subscribed, unique_violation, CreateSubscriptionRequest, open_for, unique_active,
  has_id, insert_row, update_where, new_row, new_subscription, create_subscription, since,
  recently_cancelled, reactivate_row, reactivate_subscription,
}
use angavu_intelligence_back.Subscription.Keys.{IsSound, Operation, history, history-IsSound}

-- Where the id is new and the organisation has no open subscription, no key refuses the row.
insert_new :
    (r : SubscriptionRow) (rows : List SubscriptionRow)
    → any (has_id r.id) rows ≡ false
    → any (open_for r.org_id) rows ≡ false
    → unique_active rows ≡ true
    → insert_row r rows ≡ some (r ∷ rows)
unfolding insert_row unique_active
insert_new r rows new free unique = ground arith

-- After any history of operations on a table that has its keys, a creation with a new id is refused
-- where the organisation has a subscription that is not cancelled, and succeeds everywhere else, with
-- the new row put into the table: the unique index never refuses it.
pub create_subscription-history :
    (db : Db) (os : List Operation) (now day : ℕ) (id org_id : String)
    (req : CreateSubscriptionRequest)
    → IsSound db
    → any (has_id id) (history db os).rows ≡ false
    → let db' = history db os in
      let (after, answer) = create_subscription now day id org_id req db' in
      (answer ≡ (
        if any (open_for org_id) db'.rows
        then err already_subscribed
        else ok (new_subscription now day id org_id req)))
      × (after.rows ≡ (
          if any (open_for org_id) db'.rows
          then db'.rows
          else new_row now day id org_id req ∷ db'.rows))
unfolding create_subscription new_row
create_subscription-history db os now day id org_id req h new =
    let db' = history db os in
    elim (Bool-cases (any (open_for org_id) db'.rows)) [
      | inl here ↦ rw here (refl, refl)
      | inr there ↦
          rw
            (
              there,
              insert_new (new_row now day id org_id req) db'.rows new there
                  (history-IsSound db os h).unique,
            )
            (refl, refl)
    ]

-- The rows of the organisation that are open after the UPDATE of a reactivation are those that it
-- reactivated, and those that were open.
length-reactivated :
    (now : ℕ) (org_id : String) (rows : List SubscriptionRow)
    → length (
        retain
          (open_for org_id)
          (update_where (recently_cancelled now org_id) (reactivate_row now) rows))
      ≡ length (retain (recently_cancelled now org_id) rows)
        + length (retain (open_for org_id) rows)
unfolding retain update_where
length-reactivated now org_id [] = refl
length-reactivated now org_id (r ∷ rows) =
    let rest = length-reactivated now org_id rows in
    elim (Bool-cases (recently_cancelled now org_id r)) [
      | inl e ↦
          let own : str_eq r.org_id org_id ≡ true = ground arith in
          let closed : str_eq r.status "cancelled" ≡ true = ground arith in
          let recent : since now r.cancelled_at ≡ true = ground arith in
          rw (own, closed, recent) (rw own (omega (arith, rest)))
      | inr e ↦ rw e (ground (arith, rest))
    ]

any_open :
    (org_id : String) (rows : List SubscriptionRow)
    → any (open_for org_id) rows ≡ false
    → length (retain (open_for org_id) rows) ≡ 0
unfolding retain any
any_open org_id [] h = refl
any_open org_id (r ∷ rows) h = ground (arith, any_open org_id rows)

length-unique_active :
    (org_id : String) (rows : List SubscriptionRow)
    → unique_active rows ≡ true
    → length (retain (open_for org_id) rows) ≤ 1
unfolding retain unique_active
length-unique_active org_id [] h = omega arith
length-unique_active org_id (r ∷ rows) h =
    ground
      (arith, length-unique_active org_id rows, any_open org_id rows, str_eq_iff r.org_id org_id)

any-retain :
    (p : SubscriptionRow → Bool) (rows : List SubscriptionRow)
    → 0 < length (retain p rows)
    → any p rows ≡ true
unfolding retain any
any-retain p [] h = absurd (omega (arith, h))
any-retain p (r ∷ rows) h = ground (arith, any-retain p rows)

-- An organisation that cancelled a subscription in the last 30 days, and besides it has another one
-- that it cancelled in the last 30 days or that is not cancelled, reactivates nothing: the UPDATE
-- is for all that were cancelled, and the unique index refuses it.
pub reactivate_subscription-refused :
    (now : ℕ) (org_id : String) (db : Db)
    → 0 < length (retain (recently_cancelled now org_id) db.rows)
    → 1
      < length (retain (recently_cancelled now org_id) db.rows)
        + length (retain (open_for org_id) db.rows)
    → reactivate_subscription now org_id db ≡ (db, err unique_violation)
unfolding reactivate_subscription
reactivate_subscription-refused now org_id db some_gone two =
    let rows' = update_where (recently_cancelled now org_id) (reactivate_row now) db.rows in
    let gone = any-retain (recently_cancelled now org_id) db.rows some_gone in
    elim (Bool-cases (unique_active rows')) [
      | inl unique ↦ absurd (
          omega (
            arith,
            length-unique_active org_id rows' unique,
            length-reactivated now org_id db.rows,
            two,
          ))
      | inr clash ↦ rw (gone, clash) refl
    ]
