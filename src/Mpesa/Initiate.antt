-- ===== src/Mpesa/Initiate.antt =====
-- rust-api/src/billing/mpesa.rs: `initiate_stk_push`. Daraja is a function from the number and the
-- request to whether the answer's status is a success, and the answer; `none` where it or its token
-- cannot be had. The id is handed in.
use angavu_intelligence_back.Common.{
  ℕ, Bool, true, false, not, ◌||◌, Option, none, some, List, ◌∷◌, String, ◌==◌, ◌≡◌, Result, ok,
  err, Bool-cases, Option-cases, Result-cases, inl, inr, arith, if◌then◌else◌,
}
use angavu_intelligence_back.Mpesa.{
  DarajaStkResponse, StkPushRequest, StkPushResponse, Store, Error, zero_amount, daraja_unreachable,
  stk_push_failed,
}
use angavu_intelligence_back.Mpesa.State.{pending, failed}
use angavu_intelligence_back.Mpesa.Phone.{normalize_phone}
use angavu_intelligence_back.Mpesa.Payments.{store_payment}

abbrev pub unwrap_or_default : Option String → String
unwrap_or_default none = ""
unwrap_or_default (some s) = s

-- `http` is the text that names the HTTP status.
abbrev or_else : Option String → Option String → Option String
or_else none o = o
or_else (some s) o = some s

unfoldable pub error_text : String → DarajaStkResponse → String
error_text http body = elim (or_else body.error_message body.response_description) [
  | none ↦ http
  | some s ↦ s
]

abbrev is_some : Option String → Bool
is_some none = false
is_some (some _) = true

unfoldable pub refused : Bool → DarajaStkResponse → Bool
refused is_success body = not is_success || is_some body.error_code

unfoldable pub stk_response : String → DarajaStkResponse → StkPushResponse
stk_response txn_id body = record {
  checkout_request_id = unwrap_or_default body.checkout_request_id;
  merchant_request_id = unwrap_or_default body.merchant_request_id;
  response_code = unwrap_or_default body.response_code;
  response_description = unwrap_or_default body.response_description;
  customer_message = unwrap_or_default body.customer_message;
  transaction_id = txn_id;
}

module _ (now : ℕ) (txn_id org_id : String) where
  unfoldable pub with_failed : List ℕ → ℕ → String → DarajaStkResponse → Store → Store
  with_failed phone amount http body s = record s {
    payments =
        store_payment now txn_id org_id phone amount failed (error_text http body) none none
          s.payments;
  }

  unfoldable pub with_pending : List ℕ → ℕ → DarajaStkResponse → Store → Store
  with_pending phone amount body s =
      let checkout_id = unwrap_or_default body.checkout_request_id in
      let merchant_id = unwrap_or_default body.merchant_request_id in
      record s {
        payments =
            store_payment now txn_id org_id phone amount pending "" (some checkout_id)
              (some merchant_id) s.payments;
        checkouts = (checkout_id, txn_id) ∷ s.checkouts;
      }

  -- What follows the answer of Daraja.
  unfoldable pub answered :
      List ℕ
      → ℕ
      → Bool × (String × DarajaStkResponse)
      → Store
      → Store × Result Error StkPushResponse
  answered phone amount (is_success, (http, body)) s =
      if refused is_success body
      then (with_failed phone amount http body s, err stk_push_failed)
      else (with_pending phone amount body s, ok (stk_response txn_id body))

  unfoldable pub initiate_stk_push :
      (List ℕ → StkPushRequest → Option (Bool × (String × DarajaStkResponse)))
      → StkPushRequest
      → Store
      → Store × Result Error StkPushResponse
  initiate_stk_push daraja req s = elim (normalize_phone req.phone_number) [
    | err e ↦ (s, err e)
    | ok phone ↦ if req.amount == 0 then (s, err zero_amount) else elim (daraja phone req) [
      | none ↦ (s, err daraja_unreachable)
      | some answer ↦ answered phone req.amount answer s
    ]
  ]

  answered-ok :
      (phone : List ℕ) (amount : ℕ) (answer : Bool × (String × DarajaStkResponse)) (s s' : Store)
      (resp : StkPushResponse)
      → answered phone amount answer s ≡ (s', ok resp)
      → (body : DarajaStkResponse) × (with_pending phone amount body s ≡ s')
        × (stk_response txn_id body ≡ resp)
  unfolding answered
  answered-ok phone amount (is_success, (http, body)) s s' resp h =
      elim (Bool-cases (refused is_success body)) [
        | inl e ↦ absurd (ground (arith, e))
        | inr e ↦ (body, ground (arith, e), ground (arith, e))
      ]

  -- A start that succeeds has stored a pending payment.
  pub initiate_stk_push-ok :
      (daraja : List ℕ → StkPushRequest → Option (Bool × (String × DarajaStkResponse)))
      (req : StkPushRequest) (s s' : Store) (resp : StkPushResponse)
      → initiate_stk_push daraja req s ≡ (s', ok resp)
      → (phone : List ℕ) × (body : DarajaStkResponse) × (with_pending phone req.amount body s ≡ s')
        × (stk_response txn_id body ≡ resp)
  unfolding initiate_stk_push
  initiate_stk_push-ok daraja req s s' resp h =
      elim (Result-cases (normalize_phone req.phone_number)) [
        | inl (e, p) ↦ absurd (ground (arith, p, h))
        | inr (phone, p) ↦ elim (Bool-cases (req.amount == 0)) [
          | inl z ↦ absurd (ground (arith, p, z, h))
          | inr z ↦ elim (Option-cases (daraja phone req)) [
            | inl n ↦ absurd (ground (arith, p, z, n, h))
            | inr (answer, q) ↦
                let (body, stored, told) =
                  answered-ok phone req.amount answer s s' resp
                    (rw (p, initiate_stk_push, z, q) at h) in
                (phone, body, stored, told)
          ]
        ]
      ]
