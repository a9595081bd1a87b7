-- ===== src/Mpesa/Payments.antt =====
-- rust-api/src/billing/mpesa.rs: the statements on the table of payments, and `get_payment_status`. An
-- SQL statement is a function on the list of rows, whose order is that in which `LIMIT 1` finds them.
-- Connections to the database do not fail.
use angavu_intelligence_back.Common.{
  find, ℕ, ◌%◌, ◌^◌, Bool, false, ◌&&◌, Option, none, some, List, [], ◌∷◌, map, String, str_eq,
  str_eq_iff, any, ◌≡◌, refl, Option-cases, inl, inr, arith, if◌then◌else◌,
}
use angavu_intelligence_back.Mpesa.{PaymentRow, PaymentStatus, Store}
use angavu_intelligence_back.Mpesa.State.{PaymentState, as_str, from_str}

abbrev pub has_id : String → PaymentRow → Bool
has_id id r = str_eq r.id id

-- The row that `store_payment` inserts.
unfoldable pub new_payment :
    ℕ
    → String
    → String
    → List ℕ
    → ℕ
    → PaymentState
    → String
    → Option String
    → Option String
    → PaymentRow
new_payment now txn_id org_id phone amount status error_message checkout_id merchant_id = record {
  id = txn_id;
  org_id = org_id;
  phone_number = phone;
  amount = amount % 2 ^ 32;
  status = as_str status;
  mpesa_receipt = none;
  checkout_request_id = checkout_id;
  merchant_request_id = merchant_id;
  error_message = some error_message;
  created_at = now;
  updated_at = now;
}

-- `INSERT … ON CONFLICT (id) DO UPDATE`
unfoldable pub store_payment :
    ℕ
    → String
    → String
    → List ℕ
    → ℕ
    → PaymentState
    → String
    → Option String
    → Option String
    → List PaymentRow
    → List PaymentRow
store_payment now txn_id org_id phone amount status error_message checkout_id merchant_id rows =
    if any (has_id txn_id) rows
    then map
        (λ r.
          if has_id txn_id r
          then record r {
            status = as_str status;
            error_message = some error_message;
            updated_at = now;
          }
          else r)
        rows
    else new_payment now txn_id org_id phone amount status error_message checkout_id merchant_id
      ∷ rows

unfoldable pub into_status : PaymentRow → PaymentStatus
into_status r = record {
  transaction_id = r.id;
  org_id = r.org_id;
  status = from_str r.status;
  amount = r.amount % 2 ^ 32;
  phone_number = r.phone_number;
  mpesa_receipt = r.mpesa_receipt;
  checkout_request_id = r.checkout_request_id;
  error_message = r.error_message;
  created_at = r.created_at;
  updated_at = r.updated_at;
}

-- `SELECT … LIMIT 1`
unfoldable pub first : (PaymentRow → Bool) → List PaymentRow → Option PaymentRow
first p [] = none
first p (r ∷ rows) = if p r then some r else first p rows

status_of : Option PaymentRow → Option PaymentStatus
status_of none = none
status_of (some r) = some (into_status r)

unfoldable pub get_payment_status : String → String → Store → Option PaymentStatus
unfolding status_of
get_payment_status org_id txn_id s =
    status_of (first (λ r. str_eq r.id txn_id && str_eq r.org_id org_id) s.payments)

same_text : Option String → String → Bool
same_text none t = false
same_text (some s) t = str_eq s t

id_of : Option PaymentRow → Option String
id_of none = none
id_of (some r) = some r.id

unfoldable pub with_checkout : String → PaymentRow → Bool
unfolding same_text
with_checkout k r = same_text r.checkout_request_id k

-- The transaction that a callback is about: from the cache, else from the table.
unfoldable pub find_txn : String → Store → Option String
unfolding id_of
find_txn checkout_request_id s = elim (find checkout_request_id s.checkouts) [
  | some id ↦ some id
  | none ↦ id_of (first (with_checkout checkout_request_id) s.payments)
]

unfoldable pub update_payment :
    String → (PaymentRow → PaymentRow) → List PaymentRow → List PaymentRow
update_payment txn_id f = map (λ r. if has_id txn_id r then f r else r)

-- An update that leaves the identifiers of a payment leaves the transaction of every checkout.
module _ (k id : String) (f : PaymentRow → PaymentRow) where
  id_first-update :
      (rows : List PaymentRow)
      → ((r : PaymentRow) → ((f r).id ≡ r.id) × ((f r).checkout_request_id ≡ r.checkout_request_id))
      → id_of (first (with_checkout k) (update_payment id f rows))
        ≡ id_of (first (with_checkout k) rows)
  unfolding id_of first with_checkout update_payment
  id_first-update [] same = refl
  id_first-update (r ∷ rows) same = ground (arith, id_first-update rows same, same r)

  pub find_txn-update :
      (s s' : Store)
      → ((r : PaymentRow) → ((f r).id ≡ r.id) × ((f r).checkout_request_id ≡ r.checkout_request_id))
      → s'.payments ≡ update_payment id f s.payments
      → s'.checkouts ≡ s.checkouts
      → find_txn k s' ≡ find_txn k s
  unfolding find_txn
  find_txn-update s s' same e e' = elim (Option-cases (find k s.checkouts)) [
    | inl n ↦ rw (e', n, e, find_txn) (id_first-update s.payments same)
    | inr (t, p) ↦ rw (e', p, find_txn) refl
  ]

first_of_org :
    (id org_id : String) (rows : List PaymentRow) (r : PaymentRow)
    → first (has_id id) rows ≡ some r
    → r.org_id ≡ org_id
    → first (λ q. str_eq q.id id && str_eq q.org_id org_id) rows ≡ some r
unfolding first
first_of_org id org_id [] r h e = absurd (ground arith)
first_of_org id org_id (q ∷ rows) r h e =
    ground (arith, first_of_org id org_id rows r, str_eq_iff q.org_id org_id)

pub get_payment_status-first :
    (id org_id : String) (s : Store) (r : PaymentRow)
    → first (has_id id) s.payments ≡ some r
    → r.org_id ≡ org_id
    → get_payment_status org_id id s ≡ some (into_status r)
unfolding get_payment_status
get_payment_status-first id org_id s r h e =
    rw (first_of_org id org_id s.payments r h e, get_payment_status) refl
