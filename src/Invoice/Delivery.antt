-- ===== src/Invoice/Delivery.antt =====
-- `send_invoice_email` and `send_invoice_whatsapp`, by the organisation that they look up.
use angavu_intelligence_back.Common.{
  ℕ, ◌≡◌, ◌≢◌, refl, Option, none, List, [], ◌∷◌, String, str_eq_iff, err, All, arith,
}
use angavu_intelligence_back.Invoice.{
  Invoice, InvoiceRow, invoice_not_found, get_invoice, generate_invoice_pdf, send_invoice_email,
  send_invoice_whatsapp,
}

nobody :
    (rows : List InvoiceRow) (invoice_id : String)
    → All (λ r. r.org_id ≢ "") rows
    → get_invoice "" invoice_id rows ≡ none
unfolding get_invoice
nobody [] id h = refl
nobody (r ∷ rows) id h = ground (arith, str_eq_iff r.org_id "", nobody rows id h.1)

-- Where every invoice has an organisation, no invoice can be sent, by e-mail or by WhatsApp: both look for
-- an invoice of the organisation with the empty name, and answer that none is found.
pub sends_nothing :
    (generate_pdf_bytes : Invoice → Option (List ℕ)) (rows : List InvoiceRow)
    (invoice_id recipient_email phone_number : String)
    → All (λ r. r.org_id ≢ "") rows
    → (send_invoice_email generate_pdf_bytes invoice_id recipient_email rows
        ≡ err invoice_not_found)
      × (send_invoice_whatsapp generate_pdf_bytes invoice_id phone_number rows
          ≡ err invoice_not_found)
unfolding send_invoice_email send_invoice_whatsapp generate_invoice_pdf
sends_nothing render rows id email phone h =
    let gone = nobody rows id h in (rw gone refl, rw gone refl)
