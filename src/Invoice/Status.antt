-- ===== src/Invoice/Status.antt =====
-- rust-api/src/billing/invoice.rs: `InvoiceStatus` and its names in the database.
use angavu_intelligence_back.Common.{◌≡◌, refl, String, str_eq, if◌then◌else◌}
pub mod Names

pub data InvoiceStatus : Type 0 where
  draft issued paid overdue void : InvoiceStatus

unfoldable pub as_str : InvoiceStatus → String
as_str draft = "draft"
as_str issued = "issued"
as_str paid = "paid"
as_str overdue = "overdue"
as_str void = "void"

unfoldable pub from_str : String → InvoiceStatus
from_str s =
    if str_eq s "draft"
    then draft
    else if str_eq s "issued"
    then issued
    else if str_eq s "paid"
    then paid
    else if str_eq s "overdue"
    then overdue
    else if str_eq s "void"
    then void
    else draft

pub from_str-as_str : (s : InvoiceStatus) → from_str (as_str s) ≡ s
unfolding from_str as_str
from_str-as_str draft = refl
from_str-as_str issued = refl
from_str-as_str paid = refl
from_str-as_str overdue = refl
from_str-as_str void = refl
