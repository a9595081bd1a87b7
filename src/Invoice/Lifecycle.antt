-- ===== src/Invoice/Lifecycle.antt =====
-- What a payment and a check for late invoices make of an invoice that can be read.
use angavu_intelligence_back.Common.{
  ℕ, ◌≡◌, ◌∙◌, refl, sym, ap, Bool, true, false, ◌&&◌, ◌||◌, Option, some, none, List, [], ◌∷◌, map,
  String, str_eq, ltb, inl, inr, if◌then◌else◌, Bool-cases, Option-cases, arith,
}
use mathlib.Core.Option
use angavu_intelligence_back.Invoice.{
  Invoice, InvoiceRow, into_invoice, get_invoice, pay, expire, mark_invoice_paid,
  process_overdue_invoices,
}
use angavu_intelligence_back.Invoice.Status.{
  InvoiceStatus, draft, issued, paid, overdue, void, from_str,
}
use angavu_intelligence_back.Invoice.Status.Names.{
  settled, is_issued, settled-paid, is_issued-issued,
}

abbrev pub matches : String → String → InvoiceRow → Bool
matches org_id invoice_id r = str_eq r.id invoice_id && str_eq r.org_id org_id

-- The row that `get_invoice` reads.
unfoldable pub find_row : String → String → List InvoiceRow → Option InvoiceRow
find_row org_id invoice_id [] = none
find_row org_id invoice_id (r ∷ rows) =
    if matches org_id invoice_id r then some r else find_row org_id invoice_id rows

pub get_invoice-find_row :
    (org_id invoice_id : String) (rows : List InvoiceRow)
    → get_invoice org_id invoice_id rows ≡ Option.map into_invoice (find_row org_id invoice_id rows)
unfolding get_invoice find_row
get_invoice-find_row org id [] = refl
get_invoice-find_row org id (r ∷ rows) = ground (arith, get_invoice-find_row org id rows)

pub find_row-map :
    (f : InvoiceRow → InvoiceRow) (org_id invoice_id : String)
    → ((r : InvoiceRow) → matches org_id invoice_id (f r) ≡ matches org_id invoice_id r)
    → (rows : List InvoiceRow)
    → find_row org_id invoice_id (map f rows) ≡ Option.map f (find_row org_id invoice_id rows)
unfolding find_row
find_row-map f org id same [] = refl
find_row-map f org id same (r ∷ rows) = elim (Bool-cases (matches org id r)) [
  | inl e ↦ rw (same r, e) refl
  | inr e ↦ rw (same r, e) (find_row-map f org id same rows)
]

find_row-matches :
    (org_id invoice_id : String) (rows : List InvoiceRow) (r : InvoiceRow)
    → find_row org_id invoice_id rows ≡ some r
    → str_eq r.id invoice_id ≡ true
unfolding find_row
find_row-matches org id [] r h = cc
find_row-matches org id (s ∷ rows) r h = ground (arith, find_row-matches org id rows r)

-- What a payment makes of an invoice.
abbrev pub paid_by : String → ℕ → Invoice → Invoice
paid_by receipt now invoice = record invoice {
  status = paid;
  mpesa_receipt = some receipt;
  paid_at = some now;
  updated_at = now;
}

pub pay-matches :
    (receipt id : String) (now : ℕ) (org_id invoice_id : String) (r : InvoiceRow)
    → matches org_id invoice_id (pay id receipt now r) ≡ matches org_id invoice_id r
unfolding pay
pay-matches receipt id now org_id invoice_id r = ground arith

expire-matches :
    (now : ℕ) (org_id invoice_id : String) (r : InvoiceRow)
    → matches org_id invoice_id (expire now r) ≡ matches org_id invoice_id r
unfolding expire
expire-matches now org_id invoice_id r = ground arith

-- A payment of an invoice that is read.
into_invoice-pay :
    (receipt id : String) (now : ℕ) (r : InvoiceRow)
    → str_eq r.id id ≡ true
    → into_invoice (pay id receipt now r) ≡ (
        if settled (into_invoice r).status
        then into_invoice r
        else paid_by receipt now (into_invoice r))
unfolding into_invoice pay
into_invoice-pay receipt id now r h =
    elim (Bool-cases (str_eq r.status "paid" || str_eq r.status "void")) [
      | inl e ↦ rw (h, settled-paid r.status, e) refl
      | inr e ↦ rw (h, settled-paid r.status, e) (unfold from_str in refl)
    ]

pub not_issued : (t : InvoiceStatus) → settled t ≡ true → is_issued t ≡ false
not_issued draft h = refl
not_issued issued h = cc
not_issued paid h = refl
not_issued overdue h = refl
not_issued void h = refl

pub get_invoice-some :
    (rows : List InvoiceRow) (org_id invoice_id : String) (invoice : Invoice)
    → get_invoice org_id invoice_id rows ≡ some invoice
    → (r : InvoiceRow) × (find_row org_id invoice_id rows ≡ some r) × (into_invoice r ≡ invoice)
get_invoice-some rows org_id invoice_id invoice h =
    let e = sym (get_invoice-find_row org_id invoice_id rows) ∙ h in
    elim (Option-cases (find_row org_id invoice_id rows)) [
      | inl gone ↦ absurd (ground (arith, e, gone))
      | inr (r, found) ↦ (r, found, ground (arith, e, found))
    ]

-- Where an invoice can be read by its owner, a payment reported for it pays it, unless it is paid or void:
-- then it stays as it was.
pub get_invoice-mark_invoice_paid :
    (rows : List InvoiceRow) (org_id invoice_id receipt : String) (now : ℕ) (invoice : Invoice)
    → get_invoice org_id invoice_id rows ≡ some invoice
    → get_invoice org_id invoice_id (mark_invoice_paid invoice_id receipt now rows)
      ≡ some (if settled invoice.status then invoice else paid_by receipt now invoice)
unfolding mark_invoice_paid
get_invoice-mark_invoice_paid rows org_id invoice_id receipt now invoice h =
    let (r, found, same) = get_invoice-some rows org_id invoice_id invoice h in
    let mapped =
      find_row-map (pay invoice_id receipt now) org_id invoice_id
        (pay-matches receipt invoice_id now org_id invoice_id) rows in
    get_invoice-find_row org_id invoice_id (map (pay invoice_id receipt now) rows)
    ∙ (ap (Option.map into_invoice) (mapped ∙ ap (Option.map (pay invoice_id receipt now)) found)
        ∙ ap some (
            into_invoice-pay receipt invoice_id now r
              (find_row-matches org_id invoice_id rows r found)
            ∙ ap (λ x. if settled x.status then x else paid_by receipt now x) same))

-- What the check for late invoices makes of an invoice.
abbrev pub checked : ℕ → Invoice → Invoice
checked now invoice =
    if is_issued invoice.status && ltb invoice.due_date now
    then record invoice { status = overdue; updated_at = now }
    else invoice

into_invoice-expire :
    (now : ℕ) (r : InvoiceRow) → into_invoice (expire now r) ≡ checked now (into_invoice r)
unfolding into_invoice expire
into_invoice-expire now r = elim (Bool-cases (str_eq r.status "issued" && ltb r.due_date now)) [
  | inl e ↦ rw (is_issued-issued r.status, e) (unfold from_str in refl)
  | inr e ↦ rw (is_issued-issued r.status, e) refl
]

-- A check for late invoices, for every invoice that can be read: it is overdue from then on if it was
-- issued and its due date has passed, and stays as it was otherwise.
pub get_invoice-process_overdue_invoices :
    (rows : List InvoiceRow) (org_id invoice_id : String) (now : ℕ) (invoice : Invoice)
    → get_invoice org_id invoice_id rows ≡ some invoice
    → get_invoice org_id invoice_id (process_overdue_invoices now rows).0
      ≡ some (checked now invoice)
unfolding process_overdue_invoices
get_invoice-process_overdue_invoices rows org_id invoice_id now invoice h =
    let (r, found, same) = get_invoice-some rows org_id invoice_id invoice h in
    let mapped =
      find_row-map (expire now) org_id invoice_id (expire-matches now org_id invoice_id) rows in
    get_invoice-find_row org_id invoice_id (map (expire now) rows)
    ∙ (ap (Option.map into_invoice) (mapped ∙ ap (Option.map (expire now)) found)
        ∙ ap some (into_invoice-expire now r ∙ ap (checked now) same))
