-- ===== src/Invoice/Settled.antt =====
-- Invoices that are paid or void, under later operations.
use angavu_intelligence_back.Common.{
  ℕ, ◌≡◌, ◌∙◌, refl, sym, ap, subst, true, some, List, [], ◌∷◌, map, String, str_eq, str_eq_iff,
  any, inl, inr, Bool-cases, Option-cases, arith,
}
use mathlib.Core.Option
use angavu_intelligence_back.Invoice.{
  Invoice, InvoiceRow, into_invoice, get_invoice, has_id, pay, mark_invoice_paid, create_invoice,
  insert_invoice, insert_row, issued_row, generate_invoice_number, inserted,
}
use angavu_intelligence_back.Invoice.Status.Names.{settled, settled-paid}
use angavu_intelligence_back.Invoice.History.{Call, table, perform, run, refused, stored}
use angavu_intelligence_back.Invoice.Lifecycle.{
  find_row, get_invoice-find_row, find_row-map, get_invoice-some, not_issued, pay-matches, checked,
  get_invoice-process_overdue_invoices,
}

pay-settled :
    (id receipt : String) (now : ℕ) (r : InvoiceRow)
    → settled (into_invoice r).status ≡ true
    → pay id receipt now r ≡ r
unfolding pay into_invoice
pay-settled id receipt now r h = ground (arith, settled-paid r.status)

checked-settled :
    (now : ℕ) (invoice : Invoice) → settled invoice.status ≡ true → checked now invoice ≡ invoice
checked-settled now invoice h = rw (not_issued invoice.status h) refl

found_any :
    (org_id invoice_id : String) (rows : List InvoiceRow) (r : InvoiceRow)
    → find_row org_id invoice_id rows ≡ some r
    → any (has_id invoice_id) rows ≡ true
unfolding find_row any
found_any org_id invoice_id [] r h = cc
found_any org_id invoice_id (s ∷ rows) r h = ground (arith, found_any org_id invoice_id rows r)

-- An invoice that is stored has an id of its own.
find_row-insert_row :
    (org_id invoice_id : String) (rows after : List InvoiceRow) (new r : InvoiceRow)
    → find_row org_id invoice_id rows ≡ some r
    → insert_row new rows ≡ some after
    → find_row org_id invoice_id after ≡ some r
unfolding find_row
find_row-insert_row org_id invoice_id rows after new r found kept =
    elim (Bool-cases (str_eq new.id invoice_id)) [
      | inl same ↦
          let taken : any (has_id new.id) rows ≡ true =
            subst (λ x. any (has_id x) rows ≡ true) (sym ((str_eq_iff new.id invoice_id).0 same))
              (found_any org_id invoice_id rows r found) in
          absurd (ground (arith, refused new rows taken, kept))
      | inr other ↦ rw (stored new rows after kept, other) found
    ]

module _ (year_of : ℕ → List ℕ) where
  create-keeps :
      (rows : List InvoiceRow) (org_id invoice_id : String) (invoice : Invoice) (id : String)
      (now : ℕ) (org sub : String) (amount : ℕ) (text : String)
      → get_invoice org_id invoice_id rows ≡ some invoice
      → get_invoice org_id invoice_id
          (table rows (create_invoice year_of id now org sub amount text rows))
        ≡ some invoice
  unfolding create_invoice insert_invoice inserted
  create-keeps rows org_id invoice_id invoice id now org sub amount text h =
      let new = issued_row id now (generate_invoice_number year_of now rows) org sub amount text in
      let (r, found, same) = get_invoice-some rows org_id invoice_id invoice h in
      elim (Option-cases (insert_row new rows)) [
        | inl refusal ↦ rw refusal h
        | inr (after, kept) ↦ rw kept (
            get_invoice-find_row org_id invoice_id after
            ∙ (ap (Option.map into_invoice)
                  (find_row-insert_row org_id invoice_id rows after new r found kept)
                ∙ ap some same))
      ]

  perform-settled :
      (c : Call) (rows : List InvoiceRow) (org_id invoice_id : String) (invoice : Invoice)
      → settled invoice.status ≡ true
      → get_invoice org_id invoice_id rows ≡ some invoice
      → get_invoice org_id invoice_id (perform year_of c rows) ≡ some invoice
  unfolding perform mark_invoice_paid
  perform-settled (Call.create id now org sub amount text) rows org_id invoice_id invoice s h =
      create-keeps rows org_id invoice_id invoice id now org sub amount text h
  perform-settled (Call.paid id receipt now) rows org_id invoice_id invoice s h =
      let (r, found, same) = get_invoice-some rows org_id invoice_id invoice h in
      let mapped =
        find_row-map (pay id receipt now) org_id invoice_id
          (pay-matches receipt id now org_id invoice_id) rows in
      get_invoice-find_row org_id invoice_id (map (pay id receipt now) rows)
      ∙ (ap (Option.map into_invoice) (mapped ∙ ap (Option.map (pay id receipt now)) found)
          ∙ ap some (
              ap into_invoice
                (pay-settled id receipt now r (ap (λ (x : Invoice). settled x.status) same ∙ s))
              ∙ same))
  perform-settled (Call.overdue now) rows org_id invoice_id invoice s h =
      get_invoice-process_overdue_invoices rows org_id invoice_id now invoice h
      ∙ ap some (checked-settled now invoice s)

  -- An invoice that is paid or void stays as it is, whatever is done with the table afterwards.
  pub run-settled :
      (calls : List Call) (rows : List InvoiceRow) (org_id invoice_id : String) (invoice : Invoice)
      → settled invoice.status ≡ true
      → get_invoice org_id invoice_id rows ≡ some invoice
      → get_invoice org_id invoice_id (run year_of calls rows) ≡ some invoice
  unfolding run
  run-settled [] rows org_id invoice_id invoice s h = h
  run-settled (c ∷ calls) rows org_id invoice_id invoice s h =
      run-settled calls (perform year_of c rows) org_id invoice_id invoice s
        (perform-settled c rows org_id invoice_id invoice s h)
