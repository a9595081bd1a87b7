-- ===== src/Invoice/History.antt =====
-- Histories of operations on the table of invoices, which starts empty.
use angavu_intelligence_back.Common.{
  ℕ, suc, ◌≡◌, refl, sym, ap, Bool, true, false, ◌||◌, Option, some, none, List, [], ◌∷◌, String,
  Result, ok, err, any, inl, inr, Bool-cases, arith,
}
use angavu_intelligence_back.Invoice.{
  inserted, Invoice, InvoiceRow, Error, unique_violation, into_invoice, issued_row, insert_row,
  insert_invoice, create_invoice, generate_invoice_number, has_id, mark_invoice_paid, pay, expire,
  process_overdue_invoices,
}
use angavu_intelligence_back.Invoice.Number.{number}
use angavu_intelligence_back.Invoice.Number.Text.{IsPlain}
use angavu_intelligence_back.Invoice.Numbering.{
  count_year, IsNumbered, IsNumbered-map, create_invoice_lem, same_text_refl,
}

-- The operations that change the table, with their arguments and their times.
pub data Call : Type 0 where
  create : String → ℕ → String → String → ℕ → String → Call
  paid : String → String → ℕ → Call
  overdue : ℕ → Call

-- A creation that is refused leaves the table as it is.
abbrev pub table : List InvoiceRow → Result Error (Invoice × List InvoiceRow) → List InvoiceRow
table rows (err e) = rows
table rows (ok (_, after)) = after

or_true : (b : Bool) → (b || true) ≡ true
or_true true = refl
or_true false = refl

pub refused :
    (r : InvoiceRow) (rows : List InvoiceRow)
    → any (has_id r.id) rows ≡ true
    → insert_row r rows ≡ none
unfolding insert_row
refused r rows h = rw h refl

-- A number that the newest row has is taken.
refused_number :
    (r s : InvoiceRow) (rows : List InvoiceRow)
    → r.invoice_number ≡ s.invoice_number
    → insert_row r (s ∷ rows) ≡ none
unfolding insert_row any
refused_number r s rows h =
    rw (h, same_text_refl s.invoice_number, or_true (has_id r.id s || any (has_id r.id) rows)) refl

pub stored :
    (r : InvoiceRow) (rows after : List InvoiceRow)
    → insert_row r rows ≡ some after
    → after ≡ r ∷ rows
unfolding insert_row
stored r rows after h = ground arith

inserted-ok :
    (r : InvoiceRow) (o : Option (List InvoiceRow)) (invoice : Invoice) (after : List InvoiceRow)
    → inserted r o ≡ ok (invoice, after)
    → o ≡ some after
unfolding inserted
inserted-ok r none invoice after h = cc
inserted-ok r (some l) invoice after h = ground arith

pay-number :
    (id receipt : String) (now : ℕ) (r : InvoiceRow)
    → (pay id receipt now r).invoice_number ≡ r.invoice_number
unfolding pay
pay-number id receipt now r = ground arith

expire-number : (now : ℕ) (r : InvoiceRow) → (expire now r).invoice_number ≡ r.invoice_number
unfolding expire
expire-number now r = ground arith

module _ (year_of : ℕ → List ℕ) where
  unfoldable pub perform : Call → List InvoiceRow → List InvoiceRow
  perform (create id now org_id subscription_id amount description) rows =
      table rows (create_invoice year_of id now org_id subscription_id amount description rows)
  perform (paid id receipt now) rows = mark_invoice_paid id receipt now rows
  perform (overdue now) rows = (process_overdue_invoices now rows).0

  unfoldable pub run : List Call → List InvoiceRow → List InvoiceRow
  run [] rows = rows
  run (c ∷ calls) rows = run calls (perform c rows)

  -- Two creations that both take their number before either is stored, in one year: where the first is
  -- stored, the second is refused, whatever its id.
  pub both_created :
      (rows after : List InvoiceRow) (id id' : String) (now now' : ℕ)
      (org_id org_id' subscription_id subscription_id' : String) (amount amount' : ℕ)
      (description description' : String) (invoice : Invoice)
      → year_of now ≡ year_of now'
      → insert_invoice year_of id now
          (generate_invoice_number year_of now rows)
          org_id
          subscription_id
          amount
          description
          rows
        ≡ ok (invoice, after)
      → insert_invoice year_of id' now'
          (generate_invoice_number year_of now' rows)
          org_id'
          subscription_id'
          amount'
          description'
          after
        ≡ err unique_violation
  unfolding insert_invoice
  both_created rows after id id' now now' org org' sub sub' amount amount' text text' invoice same
        h =
      let r = issued_row id now (generate_invoice_number year_of now rows) org sub amount text in
      let r' =
        issued_row id' now' (generate_invoice_number year_of now' rows) org' sub' amount' text' in
      let shape = stored r rows after (inserted-ok r (insert_row r rows) invoice after h) in
      let numbers : generate_invoice_number year_of now' rows
          ≡ generate_invoice_number year_of now rows =
        unfold generate_invoice_number in ap (λ y. number y (suc (count_year y rows))) (sym same) in
      rw shape (rw (refused_number r' r rows (unfold issued_row in numbers)) refl)

  refused_creation :
      (rows : List InvoiceRow) (id : String) (now : ℕ) (org_id subscription_id : String)
      (amount : ℕ) (description : String)
      → any (has_id id) rows ≡ true
      → create_invoice year_of id now org_id subscription_id amount description rows
        ≡ err unique_violation
  unfolding create_invoice insert_invoice
  refused_creation rows id now org sub amount text h =
      let r = issued_row id now (generate_invoice_number year_of now rows) org sub amount text in
      rw (refused r rows (unfold issued_row in h)) refl

module _ (year_of : ℕ → List ℕ) (plain : (t : ℕ) → IsPlain (year_of t)) where
  create-IsNumbered :
      (rows : List InvoiceRow)
      → IsNumbered year_of plain rows
      → (id : String) (now : ℕ) (org_id subscription_id : String) (amount : ℕ)
        (description : String)
      → IsNumbered year_of plain (
          table rows (create_invoice year_of id now org_id subscription_id amount description rows))
  create-IsNumbered rows n id now org_id subscription_id amount description =
      elim (Bool-cases (any (has_id id) rows)) [
        | inl old ↦
            rw (refused_creation year_of rows id now org_id subscription_id amount description old)
              n
        | inr new ↦
            rw
              (create_invoice_lem year_of plain rows n id now org_id subscription_id amount
                description new)
              ((now, unfold issued_row in refl), n)
      ]

  perform-IsNumbered :
      (c : Call) (rows : List InvoiceRow)
      → IsNumbered year_of plain rows
      → IsNumbered year_of plain (perform year_of c rows)
  unfolding perform mark_invoice_paid process_overdue_invoices
  perform-IsNumbered (create id now org sub amount text) rows n =
      create-IsNumbered rows n id now org sub amount text
  perform-IsNumbered (paid id receipt now) rows n =
      IsNumbered-map year_of plain (pay id receipt now) (pay-number id receipt now) rows n
  perform-IsNumbered (overdue now) rows n =
      IsNumbered-map year_of plain (expire now) (expire-number now) rows n

  run-IsNumbered :
      (calls : List Call) (rows : List InvoiceRow)
      → IsNumbered year_of plain rows
      → IsNumbered year_of plain (run year_of calls rows)
  unfolding run
  run-IsNumbered [] rows n = n
  run-IsNumbered (c ∷ calls) rows n =
      run-IsNumbered calls (perform year_of c rows) (perform-IsNumbered c rows n)

  -- Where the texts of years have no dash: after any history of operations, one after the other, from the
  -- empty table, a creation succeeds unless its id is taken, and gets the next number of its year.
  pub create_invoice-run :
      (calls : List Call) (id : String) (now : ℕ) (org_id subscription_id : String) (amount : ℕ)
      (description : String)
      → any (has_id id) (run year_of calls []) ≡ false
      → create_invoice year_of id now org_id subscription_id amount description
          (run year_of calls [])
        ≡ (let rows = run year_of calls [] in
            let r =
              issued_row id now
                (number (year_of now) (suc (count_year (year_of now) rows)))
                org_id
                subscription_id
                amount
                description in
            ok (into_invoice r, r ∷ rows))
  create_invoice-run calls id now org sub amount text new =
      create_invoice_lem year_of plain (run year_of calls []) (run-IsNumbered calls [] tt) id now
        org sub amount text new
