-- ===== src/Subscription/Keys.antt =====
-- The keys of the table, the primary key and the index of one open subscription for each
-- organisation, hold after every history of operations.
use angavu_intelligence_back.Common.{
  ℕ, ◌≡◌, ◌⊎◌, refl, Bool, true, false, Option, none, some, List, [], ◌∷◌, map, String, str_eq, any,
  All, if◌then◌else◌, Bool-cases, Option-cases, inl, inr, arith,
}
use angavu_intelligence_back.Subscription.{Subscription, SubscriptionRow}
use angavu_intelligence_back.Subscription.Store.{
  Db, Error, found, CreateSubscriptionRequest, is_open, open_for, unique_active, has_id,
  update_where, insert_row, new_row, create_subscription, cancel_subscription,
  reactivate_subscription, confirm_payment, get_active_subscription, cancel_row, pay_row,
  recently_cancelled, reactivate_row,
}
use angavu_intelligence_back.Subscription.Renewal.Sweep.{
  Run, after_run, process-DistinctIds, cancelled-settled,
}
use angavu_intelligence_back.Subscription.Renewal.Batch.{DistinctIds, map-DistinctIds}
use angavu_intelligence_back.Subscription.Renewal.Outcome.{
  settled, settled-keys, process_renewals-rows,
}

pub record IsSound (db : Db) : Type 0 where
  pub distinct : DistinctIds db.rows
  pub unique : unique_active db.rows ≡ true

-- A call of one of the operations, with the time that it reads.
pub data Operation : Type 0 where
  create : ℕ → ℕ → String → String → CreateSubscriptionRequest → Operation
  cancel : ℕ → String → Operation
  reactivate : ℕ → String → Operation
  pay : ℕ → String → String → ℕ → Operation
  run_renewals : Run → Operation

module _ (f : SubscriptionRow → SubscriptionRow)
    (same_org : (r : SubscriptionRow) → (f r).org_id ≡ r.org_id) where
  open-map :
      (org_id : String) (rows : List SubscriptionRow)
      → ((r : SubscriptionRow) → is_open (f r) ≡ true → is_open r ≡ true)
      → any (open_for org_id) rows ≡ false
      → any (open_for org_id) (map f rows) ≡ false
  unfolding any
  open-map org_id [] opens h = refl
  open-map org_id (r ∷ rows) opens h =
      rw (same_org r) (ground (arith, opens r, open-map org_id rows opens))

  unique-map :
      (rows : List SubscriptionRow)
      → ((r : SubscriptionRow) → is_open (f r) ≡ true → is_open r ≡ true)
      → unique_active rows ≡ true
      → unique_active (map f rows) ≡ true
  unfolding unique_active
  unique-map [] opens h = refl
  unique-map (r ∷ rows) opens h =
      rw (same_org r) (ground (arith, opens r, open-map r.org_id rows opens, unique-map rows opens))

-- An update that opens no row, and changes neither ids nor organisations, keeps both keys.
update-IsSound :
    (p : SubscriptionRow → Bool) (f : SubscriptionRow → SubscriptionRow) (db db' : Db)
    → ((r : SubscriptionRow) → (f r).id ≡ r.id)
    → ((r : SubscriptionRow) → (f r).org_id ≡ r.org_id)
    → ((r : SubscriptionRow) → p r ≡ true → is_open (f r) ≡ true → is_open r ≡ true)
    → db'.rows ≡ update_where p f db.rows
    → IsSound db
    → IsSound db'
unfolding update_where
update-IsSound p f db db' id org opens e h =
    let g : SubscriptionRow → SubscriptionRow = λ r. if p r then f r else r in
    record {
      distinct = rw e (map-DistinctIds g (λ r. ground (arith, id r)) db.rows h.distinct);
      unique = rw e (
          unique-map g (λ r. ground (arith, org r)) db.rows (λ r. ground (arith, opens r))
            h.unique);
    }

any_id-Fresh :
    (id : String) (rows : List SubscriptionRow)
    → any (has_id id) rows ≡ false
    → All (λ r. str_eq r.id id ≡ false) rows
unfolding any
any_id-Fresh id [] h = tt
any_id-Fresh id (r ∷ rows) h = ground (arith, any_id-Fresh id rows)

insert-inversion :
    (r : SubscriptionRow) (rows rows' : List SubscriptionRow)
    → insert_row r rows ≡ some rows'
    → (rows' ≡ r ∷ rows) × (any (has_id r.id) rows ≡ false) × (unique_active (r ∷ rows) ≡ true)
unfolding insert_row
insert-inversion r rows rows' e = ground arith

insert-IsSound :
    (r : SubscriptionRow) (db db' : Db)
    → insert_row r db.rows ≡ some db'.rows
    → IsSound db
    → IsSound db'
insert-IsSound r db db' e h =
    let (same, new_id, unique) = insert-inversion r db.rows db'.rows e in
    record {
      distinct = rw same (any_id-Fresh r.id db.rows new_id, h.distinct);
      unique = rw same unique;
    }

create-IsSound :
    (now day : ℕ) (id org_id : String) (req : CreateSubscriptionRequest) (db : Db)
    → IsSound db
    → IsSound (create_subscription now day id org_id req db).0
unfolding create_subscription
create-IsSound now day id org_id req db h =
    let row = new_row now day id org_id req in
    elim (Bool-cases (any (open_for org_id) db.rows)) [
      | inl here ↦ rw here h
      | inr there ↦ elim (Option-cases (insert_row row db.rows)) [
        | inl n ↦ rw (there, n) h
        | inr (rows, e) ↦ rw (there, e) (insert-IsSound row db _ e h)
      ]
    ]

found-IsSound :
    (e : Error) (db : Db) (o : Option Subscription) → IsSound db → IsSound (found e db o).0
unfolding found
found-IsSound e db none h = h
found-IsSound e db (some s) h = h

ids_kept :
    (p : SubscriptionRow → Bool) (f : SubscriptionRow → SubscriptionRow)
    (rows : List SubscriptionRow)
    → ((r : SubscriptionRow) → (f r).id ≡ r.id)
    → DistinctIds rows
    → DistinctIds (update_where p f rows)
unfolding update_where
ids_kept p f rows id h =
    map-DistinctIds (λ r. if p r then f r else r) (λ r. ground (arith, id r)) rows h

cancel-IsSound :
    (now : ℕ) (org_id : String) (db : Db)
    → IsSound db
    → IsSound (cancel_subscription now org_id db).0
unfolding cancel_subscription
cancel-IsSound now org_id db h =
    let rows' = update_where (open_for org_id) (cancel_row now) db.rows in
    let db' : Db = record db { rows = rows' } in
    let sound : IsSound db' =
      update-IsSound (open_for org_id) (cancel_row now) db db' (λ r. refl) (λ r. refl)
        (λ r p o. ground arith) refl h in
    elim (Bool-cases (any (open_for org_id) db.rows)) [
      | inl here ↦ rw here (found-IsSound _ db' _ sound)
      | inr there ↦ rw there h
    ]

reactivate-IsSound :
    (now : ℕ) (org_id : String) (db : Db)
    → IsSound db
    → IsSound (reactivate_subscription now org_id db).0
unfolding reactivate_subscription
reactivate-IsSound now org_id db h =
    let p = recently_cancelled now org_id in
    let rows' = update_where p (reactivate_row now) db.rows in
    let db' : Db = record db { rows = rows' } in
    elim (Bool-cases (any p db.rows)) [
      | inl here ↦ elim (Bool-cases (unique_active rows')) [
        | inl unique ↦
            rw (here, unique)
              (found-IsSound _ db' _ (record {
                distinct = ids_kept p (reactivate_row now) db.rows (λ r. refl) h.distinct;
                unique = unique;
              }))
        | inr clash ↦ rw (here, clash) h
      ]
      | inr there ↦ rw there h
    ]

pay-IsSound :
    (now : ℕ) (org_id receipt : String) (amount : ℕ) (db : Db)
    → IsSound db
    → IsSound (confirm_payment now org_id receipt amount db).0
unfolding confirm_payment
pay-IsSound now org_id receipt amount db h =
    elim (Option-cases (get_active_subscription org_id db)) [
      | inl n ↦ rw (n, confirm_payment) h
      | inr (s, e) ↦
          rw (e, confirm_payment)
            (update-IsSound (open_for org_id) (pay_row now receipt) db _ (λ r. refl) (λ r. refl)
              (λ r p o. ground arith) refl h)
    ]

-- A cancelled row stays as it is, so no row is opened.
opens_none :
    (run : Run) (r : SubscriptionRow)
    → (str_eq r.status "cancelled" ≡ true) ⊎ (str_eq r.status "cancelled" ≡ false)
    → is_open (settled run.invoice run.stk_push run.now r) ≡ true
    → is_open r ≡ true
opens_none run r (inl gone) o = rw (cancelled-settled run.invoice run.stk_push run.now r gone) at o
opens_none run r (inr there) o = rw there

renewals-IsSound : (run : Run) (db : Db) → IsSound db → IsSound (after_run run db)
renewals-IsSound run db h =
    let f = settled run.invoice run.stk_push run.now in
    record {
      distinct = process-DistinctIds run.invoice run.stk_push run.now db h.distinct;
      unique = rw (process_renewals-rows run.invoice run.stk_push run.now db h.distinct) (
          unique-map f (λ r. (settled-keys run.invoice run.stk_push run.now r).1) db.rows
            (λ r o. opens_none run r (Bool-cases (str_eq r.status "cancelled")) o) h.unique);
    }

unfoldable pub perform : Db → Operation → Db
perform db (create now day id org_id req) = (create_subscription now day id org_id req db).0
perform db (cancel now org_id) = (cancel_subscription now org_id db).0
perform db (reactivate now org_id) = (reactivate_subscription now org_id db).0
perform db (pay now org_id receipt amount) = (confirm_payment now org_id receipt amount db).0
perform db (run_renewals run) = after_run run db

unfoldable pub history : Db → List Operation → Db
history db [] = db
history db (o ∷ os) = history (perform db o) os

perform-IsSound : (db : Db) (o : Operation) → IsSound db → IsSound (perform db o)
unfolding perform
perform-IsSound db (create now day id org_id req) h = create-IsSound now day id org_id req db h
perform-IsSound db (cancel now org_id) h = cancel-IsSound now org_id db h
perform-IsSound db (reactivate now org_id) h = reactivate-IsSound now org_id db h
perform-IsSound db (pay now org_id receipt amount) h = pay-IsSound now org_id receipt amount db h
perform-IsSound db (run_renewals run) h = renewals-IsSound run db h

-- Every history of creations, cancellations, reactivations, payments and renewal runs keeps both
-- keys of the table: ids stand once, and no organisation has two subscriptions that are not
-- cancelled.
pub history-IsSound : (db : Db) (os : List Operation) → IsSound db → IsSound (history db os)
unfolding history
history-IsSound db [] h = h
history-IsSound db (o ∷ os) h = history-IsSound (perform db o) os (perform-IsSound db o h)
