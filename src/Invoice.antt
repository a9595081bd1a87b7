-- ===== src/Invoice.antt =====
-- rust-api/src/billing/invoice.rs: invoices, and the operations on the table `invoices`. An SQL statement
-- is a function on the list of rows; INSERT checks the primary key and the unique number. Connections do
-- not fail, ids and the time are handed in, and the JSON of the line items is the list itself. Amounts
-- are exact, in ten-thousandths of a shilling, in place of an f64: prices are whole in hundredths.
use angavu_intelligence_back.Common.{
  ℕ, suc, zero, ◌+◌, ◌*◌, ◌/◌, ◌%◌, ◌^◌, min, Bool, true, false, not, ◌&&◌, ◌||◌, Option, some,
  none, List, [], ◌∷◌, map, length, String, str_eq, same_text, Result, ok, err, retain, any, ltb,
  leb, if◌then◌else◌,
}
use angavu_intelligence_back.Invoice.Status
use angavu_intelligence_back.Invoice.Status.{InvoiceStatus, issued}
use angavu_intelligence_back.Invoice.Number.{number, like_year}
pub mod Number
pub mod Status
pub mod Listing
pub mod Numbering
pub mod History
pub mod Lifecycle
pub mod Settled
pub mod Delivery
mod Tests

pub record LineItem : Type 0 where
  pub description : String
  pub quantity : ℕ
  pub unit_price_kes : ℕ
  pub total_kes : ℕ

pub record Invoice : Type 0 where
  pub id : String
  pub invoice_number : List ℕ
  pub org_id : String
  pub subscription_id : String
  pub status : InvoiceStatus
  pub currency : String
  pub subtotal_kes : ℕ
  pub tax_kes : ℕ
  pub total_kes : ℕ
  pub line_items : List LineItem
  pub description : String
  pub mpesa_receipt : Option String
  pub issued_at : ℕ
  pub due_date : ℕ
  pub paid_at : Option ℕ
  pub voided_at : Option ℕ
  pub created_at : ℕ
  pub updated_at : ℕ

pub record InvoiceRow : Type 0 where
  pub id : String
  pub invoice_number : List ℕ
  pub org_id : String
  pub subscription_id : String
  pub status : String
  pub currency : String
  pub subtotal_kes : ℕ
  pub tax_kes : ℕ
  pub total_kes : ℕ
  pub line_items : List LineItem
  pub description : String
  pub mpesa_receipt : Option String
  pub issued_at : ℕ
  pub due_date : ℕ
  pub paid_at : Option ℕ
  pub voided_at : Option ℕ
  pub created_at : ℕ
  pub updated_at : ℕ

unfoldable pub into_invoice : InvoiceRow → Invoice
into_invoice r = record {
  id = r.id;
  invoice_number = r.invoice_number;
  org_id = r.org_id;
  subscription_id = r.subscription_id;
  status = Status.from_str r.status;
  currency = r.currency;
  subtotal_kes = r.subtotal_kes;
  tax_kes = r.tax_kes;
  total_kes = r.total_kes;
  line_items = r.line_items;
  description = r.description;
  mpesa_receipt = r.mpesa_receipt;
  issued_at = r.issued_at;
  due_date = r.due_date;
  paid_at = r.paid_at;
  voided_at = r.voided_at;
  created_at = r.created_at;
  updated_at = r.updated_at;
}

pub data Error : Type 0 where
  unique_violation invoice_not_found pdf_failed negative_range : Error

-- A day, in microseconds.
abbrev pub day : ℕ
day = 24 * 60 * 60 * 1000000

abbrev pub has_id : String → InvoiceRow → Bool
has_id id r = str_eq r.id id

abbrev pub has_number : List ℕ → InvoiceRow → Bool
has_number n r = same_text r.invoice_number n

-- The row that `create_invoice` inserts.
unfoldable pub issued_row : String → ℕ → List ℕ → String → String → ℕ → String → InvoiceRow
issued_row id now number org_id subscription_id amount description = record {
  id = id;
  invoice_number = number;
  org_id = org_id;
  subscription_id = subscription_id;
  status = "issued";
  currency = "KES";
  subtotal_kes = amount;
  tax_kes = amount * 16 / 100;
  total_kes = amount + amount * 16 / 100;
  line_items =
      record {
        description = description;
        quantity = 1;
        unit_price_kes = amount;
        total_kes = amount;
      }
      ∷ [];
  description = description;
  mpesa_receipt = none;
  issued_at = now;
  due_date = now + 7 * day;
  paid_at = none;
  voided_at = none;
  created_at = now;
  updated_at = now;
}

-- `INSERT INTO invoices`
unfoldable pub insert_row : InvoiceRow → List InvoiceRow → Option (List InvoiceRow)
insert_row r rows =
    if any (has_id r.id) rows || any (has_number r.invoice_number) rows
    then none
    else some (r ∷ rows)

inserted : InvoiceRow → Option (List InvoiceRow) → Result Error (Invoice × List InvoiceRow)
inserted r none = err unique_violation
inserted r (some rows) = ok (into_invoice r, rows)

-- `Utc::now().format("%Y")` is a function of the time.
module _ (year_of : ℕ → List ℕ) where
  unfoldable pub generate_invoice_number : ℕ → List InvoiceRow → List ℕ
  generate_invoice_number now rows =
      number (year_of now)
        (suc (length (retain (λ (r : InvoiceRow). like_year (year_of now) r.invoice_number) rows)))

  -- From the number on, `create_invoice` is one INSERT.
  unfoldable pub insert_invoice :
      String
      → ℕ
      → List ℕ
      → String
      → String
      → ℕ
      → String
      → List InvoiceRow
      → Result Error (Invoice × List InvoiceRow)
  unfolding inserted
  insert_invoice id now number org_id subscription_id amount description rows =
      let r = issued_row id now number org_id subscription_id amount description in
      inserted r (insert_row r rows)

  unfoldable pub create_invoice :
      String
      → ℕ
      → String
      → String
      → ℕ
      → String
      → List InvoiceRow
      → Result Error (Invoice × List InvoiceRow)
  create_invoice id now org_id subscription_id amount description rows =
      insert_invoice id now (generate_invoice_number now rows) org_id subscription_id amount
        description rows

-- `WHERE id = $1 AND org_id = $2`
unfoldable pub get_invoice : String → String → List InvoiceRow → Option Invoice
get_invoice org_id invoice_id [] = none
get_invoice org_id invoice_id (r ∷ rows) =
    if str_eq r.id invoice_id && str_eq r.org_id org_id
    then some (into_invoice r)
    else get_invoice org_id invoice_id rows

-- `status NOT IN ('paid', 'void')`
abbrev pub is_open : InvoiceRow → Bool
is_open r = not (str_eq r.status "paid" || str_eq r.status "void")

unfoldable pub pay : String → String → ℕ → InvoiceRow → InvoiceRow
pay invoice_id mpesa_receipt now r =
    if str_eq r.id invoice_id && is_open r
    then record r {
      status = "paid";
      mpesa_receipt = some mpesa_receipt;
      paid_at = some now;
      updated_at = now;
    }
    else r

unfoldable pub mark_invoice_paid : String → String → ℕ → List InvoiceRow → List InvoiceRow
mark_invoice_paid invoice_id mpesa_receipt now = map (pay invoice_id mpesa_receipt now)

-- `status = 'issued' AND due_date < $1`
abbrev pub is_late : ℕ → InvoiceRow → Bool
is_late now r = str_eq r.status "issued" && ltb r.due_date now

unfoldable pub expire : ℕ → InvoiceRow → InvoiceRow
expire now r = if is_late now r then record r { status = "overdue"; updated_at = now } else r

-- The table after the statement, and the count of its rows as a u32.
unfoldable pub process_overdue_invoices : ℕ → List InvoiceRow → List InvoiceRow × ℕ
process_overdue_invoices now rows =
    (map (expire now) rows, length (retain (is_late now) rows) % 2 ^ 32)

pdf_of : (Invoice → Option (List ℕ)) → Option Invoice → Result Error (List ℕ)
pdf_of render none = err invoice_not_found
pdf_of render (some invoice) = elim (render invoice) [
  | none ↦ err pdf_failed
  | some bytes ↦ ok bytes
]

delivered : Result Error (List ℕ) → Result Error (Unit {0})
delivered (err e) = err e
delivered (ok bytes) = ok tt

-- `generate_pdf_bytes` prints an invoice with the crate printpdf.
module _ (generate_pdf_bytes : Invoice → Option (List ℕ)) where
  unfoldable pub generate_invoice_pdf : String → String → List InvoiceRow → Result Error (List ℕ)
  unfolding pdf_of
  generate_invoice_pdf org_id invoice_id rows =
      pdf_of generate_pdf_bytes (get_invoice org_id invoice_id rows)

  -- The e-mail is only logged.
  unfoldable pub send_invoice_email : String → String → List InvoiceRow → Result Error (Unit {0})
  unfolding delivered
  send_invoice_email invoice_id recipient_email rows =
      delivered (generate_invoice_pdf "" invoice_id rows)

  unfoldable pub send_invoice_whatsapp : String → String → List InvoiceRow → Result Error (Unit {0})
  unfolding delivered
  send_invoice_whatsapp invoice_id phone_number rows =
      delivered (generate_invoice_pdf "" invoice_id rows)
