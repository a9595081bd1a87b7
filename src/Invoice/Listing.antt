-- ===== src/Invoice/Listing.antt =====
-- rust-api/src/billing/invoice.rs: `list_invoices`. A limit or an offset below zero is refused by the
-- database; rows with one `created_at` stay in the order of the table.
use angavu_intelligence_back.Common.{
  ℕ, zero, suc, min, Bool, ◌&&◌, Option, some, none, List, [], ◌∷◌, map, String, str_eq, Result, ok,
  err, retain, drop, leb, if◌then◌else◌,
}
use angavu_intelligence_back.Invoice.{Invoice, InvoiceRow, into_invoice, Error, negative_range}
pub mod Page

-- An i64. `negsuc n` is -(n + 1).
pub data ℤ : Type 0 where
  pos : ℕ → ℤ
  negsuc : ℕ → ℤ

pub record InvoiceListParams : Type 0 where
  pub status : Option String
  pub limit : Option ℤ
  pub offset : Option ℤ

unfoldable pub take {ℓ} : {A : Type ℓ} → ℕ → List A → List A
take zero xs = []
take (suc n) [] = []
take (suc n) (x ∷ xs) = x ∷ take n xs

-- `ORDER BY created_at DESC`
unfoldable pub insert_newest : InvoiceRow → List InvoiceRow → List InvoiceRow
insert_newest r [] = r ∷ []
insert_newest r (s ∷ rows) =
    let rest = insert_newest r rows in
    if leb s.created_at r.created_at then r ∷ s ∷ rows else s ∷ rest

unfoldable pub newest_first : List InvoiceRow → List InvoiceRow
newest_first [] = []
newest_first (r ∷ rows) = insert_newest r (newest_first rows)

unfoldable pub listed : String → Option String → InvoiceRow → Bool
listed org_id none r = str_eq r.org_id org_id
listed org_id (some status) r = str_eq r.org_id org_id && str_eq r.status status

-- `.unwrap_or(20).min(100)`
unfoldable pub limit_of : Option ℤ → ℤ
limit_of none = pos 20
limit_of (some (pos n)) = pos (min n 100)
limit_of (some (negsuc n)) = negsuc n

unfoldable pub offset_of : Option ℤ → ℤ
offset_of none = pos 0
offset_of (some o) = o

-- `LIMIT … OFFSET …`
unfoldable pub page : ℤ → ℤ → List InvoiceRow → Result Error (List InvoiceRow)
page (pos limit) (pos offset) rows = ok (take limit (drop offset rows))
page (pos limit) (negsuc n) rows = err negative_range
page (negsuc n) offset rows = err negative_range

invoices : Result Error (List InvoiceRow) → Result Error (List Invoice)
invoices (err e) = err e
invoices (ok rows) = ok (map into_invoice rows)

unfoldable pub list_invoices :
    String → InvoiceListParams → List InvoiceRow → Result Error (List Invoice)
unfolding invoices
list_invoices org_id params rows = invoices (
    page (limit_of params.limit) (offset_of params.offset)
      (newest_first (retain (listed org_id params.status) rows)))
