-- ===== src/Invoice/Tests.antt =====
-- Invoices of a small table.
use angavu_intelligence_back.Common.{
  ◌*◌, ℕ, zero, suc, ◌+◌, ◌/◌, ◌%◌, ◌≡◌, ◌≢◌, refl, false, some, none, List, [], ◌∷◌, ◌++◌, codes,
  ok, err, same_text, retain, any, drop, Bool-cases, inl, inr, ltb, arith,
}
use angavu_intelligence_back.Invoice.{
  Invoice, InvoiceRow, unique_violation, into_invoice, issued_row, insert_row, insert_invoice,
  create_invoice, generate_invoice_number, get_invoice, has_id, pay, mark_invoice_paid, expire,
  process_overdue_invoices, day,
}
use angavu_intelligence_back.Invoice.Status
use angavu_intelligence_back.Invoice.Number.{
  decimal, decimal_on, padded, zeros, number, like_year, year_prefix, starts_with,
}
use angavu_intelligence_back.Invoice.Number.Text.{IsPlain}
use angavu_intelligence_back.Invoice.Numbering.{count_year}
use angavu_intelligence_back.Invoice.History.{
  Call, create, paid, overdue, perform, run, create_invoice-run, both_created,
}
use angavu_intelligence_back.Invoice.Lifecycle.{paid_by, checked}
use angavu_intelligence_back.Invoice.Settled.{run-settled}
use angavu_intelligence_back.Invoice.Listing.{
  pos, InvoiceListParams, list_invoices, take, insert_newest, newest_first, listed, limit_of,
  offset_of, page,
}

number_2026 : number (codes "2026") 42 ≡ codes "INV-2026-00042"
unfolding number padded decimal decimal_on zeros
number_2026 = refl

long_number : number (codes "2026") 123456 ≡ codes "INV-2026-123456"
unfolding number padded decimal decimal_on zeros
long_number = refl

-- The year of a time, in years of 365 days.
abbrev year_of : ℕ → List ℕ
year_of now = decimal (1970 + now / (365 * day))

All-concat : (s : List ℕ) (c : ℕ) → IsPlain s → c ≢ 45 → IsPlain (s ++ c ∷ [])
All-concat [] c p q = (q, tt)
All-concat (a ∷ s) c p q = (p.0, All-concat s c p.1 q)

digit : (n : ℕ) → 48 + n ≢ 45
digit n e = omega arith

plain_on : (fuel n : ℕ) → IsPlain (decimal_on fuel n)
unfolding decimal_on
plain_on zero n = tt
plain_on (suc fuel) n = elim (Bool-cases (ltb n 10)) [
  | inl e ↦ rw e (digit n, tt)
  | inr e ↦ rw e (
      All-concat (decimal_on fuel (n / 10)) (48 + n % 10) (plain_on fuel (n / 10)) (digit (n % 10)))
]

plain : (t : ℕ) → IsPlain (year_of t)
unfolding decimal
plain t = plain_on (suc (1970 + t / (365 * day))) (1970 + t / (365 * day))

-- Two invoices are made, one is paid, and the other falls overdue.
abbrev calls : List Call
calls =
    create "a" 10 "mill" "s1" 5000000 "January"
    ∷ create "b" 20 "shop" "s2" 10000000 "January"
    ∷ paid "a" "QK1" (2 * day)
    ∷ overdue (9 * day)
    ∷ []

abbrev table : List InvoiceRow
table = run year_of calls []

-- The second is the second of its year, and has its tax.
second_invoice :
    create_invoice year_of "b" 20 "shop" "s2" 10000000 "January"
      (run year_of (create "a" 10 "mill" "s1" 5000000 "January" ∷ []) [])
    ≡ (let r = issued_row "b" 20 (codes "INV-1970-00002") "shop" "s2" 10000000 "January" in
        ok (
          into_invoice r,
          r ∷ issued_row "a" 10 (codes "INV-1970-00001") "mill" "s1" 5000000 "January" ∷ [],
        ))
unfolding run perform create_invoice generate_invoice_number insert_invoice insert_row issued_row
    into_invoice retain like_year year_prefix starts_with any same_text number padded decimal
    decimal_on zeros Status.from_str
second_invoice = refl

tax : (into_invoice (issued_row "b" 20 [] "shop" "s2" 10000000 "January")).total_kes ≡ 11600000
unfolding into_invoice issued_row
tax = refl

abbrev paid_invoice : Invoice
paid_invoice =
    paid_by "QK1" (2 * day)
      (into_invoice (issued_row "a" 10 (codes "INV-1970-00001") "mill" "s1" 5000000 "January"))

abbrev late_invoice : Invoice
late_invoice =
    checked (9 * day)
      (into_invoice (issued_row "b" 20 (codes "INV-1970-00002") "shop" "s2" 10000000 "January"))

paid_read : get_invoice "mill" "a" table ≡ some paid_invoice
unfolding run perform create_invoice generate_invoice_number insert_invoice insert_row issued_row
    into_invoice retain like_year year_prefix starts_with any same_text number padded decimal
    decimal_on zeros Status.from_str mark_invoice_paid pay process_overdue_invoices expire
    get_invoice
paid_read = refl

late_read : get_invoice "shop" "b" table ≡ some late_invoice
unfolding run perform create_invoice generate_invoice_number insert_invoice insert_row issued_row
    into_invoice retain like_year year_prefix starts_with any same_text number padded decimal
    decimal_on zeros Status.from_str mark_invoice_paid pay process_overdue_invoices expire
    get_invoice
late_read = refl

new_id : any (has_id "c") table ≡ false
unfolding run perform create_invoice generate_invoice_number insert_invoice insert_row issued_row
    into_invoice retain like_year year_prefix starts_with any same_text number padded decimal
    decimal_on zeros mark_invoice_paid pay process_overdue_invoices expire
new_id = refl

create_invoice-run_example : create_invoice year_of "c" 30 "mill" "s1" 5000000 "February" table ≡ (
    let r =
      issued_row "c" 30
        (number (year_of 30) (suc (count_year (year_of 30) table)))
        "mill"
        "s1"
        5000000
        "February" in
    ok (into_invoice r, r ∷ table))
create_invoice-run_example =
    create_invoice-run year_of plain calls "c" 30 "mill" "s1" 5000000 "February" new_id

abbrev first_row : InvoiceRow
first_row = issued_row "a" 10 (codes "INV-1970-00001") "mill" "s1" 5000000 "January"

first_stored :
    insert_invoice year_of "a" 10
      (generate_invoice_number year_of 10 [])
      "mill"
      "s1"
      5000000
      "January"
      []
    ≡ ok (into_invoice first_row, first_row ∷ [])
unfolding generate_invoice_number insert_invoice insert_row issued_row into_invoice retain any
    number padded decimal decimal_on zeros Status.from_str
first_stored = refl

both_created_example :
    insert_invoice year_of "b" 10
      (generate_invoice_number year_of 10 [])
      "shop"
      "s2"
      7
      "January"
      (first_row ∷ [])
    ≡ err unique_violation
both_created_example =
    both_created year_of [] (first_row ∷ []) "a" "b" 10 10 "mill" "shop" "s1" "s2" 5000000 7
      "January" "January" (into_invoice first_row) refl first_stored

run-settled_example :
    get_invoice "mill" "a" (run year_of (paid "a" "QK9" (20 * day) ∷ calls) table)
    ≡ some paid_invoice
run-settled_example =
    run-settled year_of (paid "a" "QK9" (20 * day) ∷ calls) table "mill" "a" paid_invoice refl
      paid_read

abbrev all_params : InvoiceListParams
all_params = record { status = none; limit = some (pos 1); offset = none }

one_listed :
    list_invoices "mill" all_params (first_row ∷ first_row ∷ []) ≡ ok (into_invoice first_row ∷ [])
unfolding list_invoices page limit_of offset_of newest_first insert_newest listed retain take drop
    issued_row into_invoice Status.from_str
one_listed = refl
