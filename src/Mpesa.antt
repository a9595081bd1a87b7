-- ===== src/Mpesa.antt =====
-- rust-api/src/billing/mpesa.rs: the types of a payment and of Daraja's answer, and the store that the
-- payments and the subscriptions share. Times are microseconds. A signed 32-bit column is kept as its
-- 32 bits, and a phone number as its code points.
use angavu_intelligence_back.Common.{ℕ, Option, List, String}
use angavu_intelligence_back.Subscription.Store.{Db}
pub mod State
pub mod Phone
pub mod Payments
pub mod Callback
pub mod Initiate
mod Tests
pub use State.{PaymentState, pending, success, failed, cancelled}

pub record PaymentRow : Type 0 where
  pub id : String
  pub org_id : String
  pub phone_number : List ℕ
  pub amount : ℕ  -- i32
  pub status : String
  pub mpesa_receipt : Option String
  pub checkout_request_id : Option String
  pub merchant_request_id : Option String
  pub error_message : Option String
  pub created_at : ℕ
  pub updated_at : ℕ

-- What a client that polls is told.
pub record PaymentStatus : Type 0 where
  pub transaction_id : String
  pub org_id : String
  pub status : PaymentState
  pub amount : ℕ  -- u32
  pub phone_number : List ℕ
  pub mpesa_receipt : Option String
  pub checkout_request_id : Option String
  pub error_message : Option String
  pub created_at : ℕ
  pub updated_at : ℕ

pub record DarajaStkResponse : Type 0 where
  pub merchant_request_id : Option String
  pub checkout_request_id : Option String
  pub response_code : Option String
  pub response_description : Option String
  pub customer_message : Option String
  pub error_code : Option String
  pub error_message : Option String

pub record StkPushRequest : Type 0 where
  pub phone_number : List ℕ
  pub amount : ℕ  -- u32
  pub account_reference : String
  pub description : String

pub record StkPushResponse : Type 0 where
  pub checkout_request_id : String
  pub merchant_request_id : String
  pub response_code : String
  pub response_description : String
  pub customer_message : String
  pub transaction_id : String

-- The table `payments`, the keys `payment:checkout:*` of Redis, and the subscriptions with their cache.
-- A key that has expired or cannot be read is missing.
pub record Store : Type 0 where
  pub payments : List PaymentRow
  pub checkouts : List (String × String)
  pub billing : Db

pub data Error : Type 0 where
  invalid_phone not_safaricom zero_amount daraja_unreachable stk_push_failed : Error
  payment_not_found row_not_found no_subscription : Error
