-- ===== src/Mpesa/State.antt =====
-- rust-api/src/billing/mpesa.rs: `PaymentState` and its names in the database.
use angavu_intelligence_back.Common.{◌≡◌, refl, String, str_eq, if◌then◌else◌}

pub data PaymentState : Type 0 where
  pending success failed cancelled : PaymentState

unfoldable pub as_str : PaymentState → String
as_str pending = "pending"
as_str success = "success"
as_str failed = "failed"
as_str cancelled = "cancelled"

unfoldable pub from_str : String → PaymentState
from_str s =
    if str_eq s "pending"
    then pending
    else if str_eq s "success"
    then success
    else if str_eq s "failed"
    then failed
    else if str_eq s "cancelled"
    then cancelled
    else pending

pub from_str-as_str : (s : PaymentState) → from_str (as_str s) ≡ s
unfolding from_str as_str
from_str-as_str pending = refl
from_str-as_str success = refl
from_str-as_str failed = refl
from_str-as_str cancelled = refl
