-- ===== src/Invoice/Numbering.antt =====
-- The numbers that `create_invoice` gives.
use angavu_intelligence_back.Common.{
  ℕ, suc, ◌<◌, ◌≤◌, ◌≡◌, ◌∙◌, refl, sym, ap, true, false, List, [], ◌∷◌, map, length, String, ok,
  same_text, retain, any, Bool-cases, inl, inr, arith,
}
use angavu_intelligence_back.Invoice.{
  InvoiceRow, into_invoice, issued_row, insert_row, insert_invoice, create_invoice,
  generate_invoice_number, has_id, has_number,
}
use angavu_intelligence_back.Invoice.Number.{number, like_year}
use angavu_intelligence_back.Invoice.Number.Text.{IsPlain, number-eq, like_year-number}

pub same_text-eq : (s t : List ℕ) → same_text s t ≡ true → s ≡ t
unfolding same_text
same_text-eq [] [] h = refl
same_text-eq [] (b ∷ t) h = cc
same_text-eq (a ∷ s) [] h = cc
same_text-eq (a ∷ s) (b ∷ t) h = ground (arith, same_text-eq s t)

pub same_text_refl : (s : List ℕ) → same_text s s ≡ true
unfolding same_text
same_text_refl [] = refl
same_text_refl (a ∷ s) = ground (arith, same_text_refl s)

-- The invoices whose numbers are of the year.
abbrev pub count_year : List ℕ → List InvoiceRow → ℕ
count_year year rows = length (retain (λ (r : InvoiceRow). like_year year r.invoice_number) rows)

count_year-cons_le :
    (year : List ℕ) (r : InvoiceRow) (rows : List InvoiceRow)
    → count_year year rows ≤ count_year year (r ∷ rows)
unfolding retain
count_year-cons_le year r rows = ground arith

count_year-cons :
    (year : List ℕ) (r : InvoiceRow) (rows : List InvoiceRow)
    → like_year year r.invoice_number ≡ true
    → count_year year (r ∷ rows) ≡ suc (count_year year rows)
unfolding retain
count_year-cons year r rows h = ground arith

module _ (year_of : ℕ → List ℕ) (plain : (t : ℕ) → IsPlain (year_of t)) where
  -- Each number is the next of its year, after those of the rows that are older.
  abbrev pub IsNumbered : List InvoiceRow → Type 0
  IsNumbered [] = Unit
  IsNumbered (r ∷ rows) =
      ((t : ℕ) × (r.invoice_number ≡ number (year_of t) (suc (count_year (year_of t) rows))))
      × IsNumbered rows

  -- A number of the year beyond those that were given is not taken.
  not_taken :
      (now k : ℕ) (rows : List InvoiceRow)
      → IsNumbered rows
      → count_year (year_of now) rows < k
      → any (has_number (number (year_of now) k)) rows ≡ false
  unfolding any
  not_taken now k [] n h = refl
  not_taken now k (r ∷ rows) ((t, e), n) h =
      elim (Bool-cases (same_text r.invoice_number (number (year_of now) k))) [
        | inl taken ↦
            let same : number (year_of now) k
                ≡ number (year_of t) (suc (count_year (year_of t) rows)) =
              sym (same_text-eq _ _ taken) ∙ e in
            let (year, place) =
              number-eq (year_of now) (year_of t) k (suc (count_year (year_of t) rows)) (plain now)
                (plain t) same in
            let of_year : like_year (year_of now) r.invoice_number ≡ true =
              ap (like_year (year_of now)) (same_text-eq _ _ taken)
              ∙ like_year-number (year_of now) k in
            absurd (
              omega (
                arith,
                place,
                ap (λ y. count_year y rows) year,
                count_year-cons (year_of now) r rows of_year,
              ))
        | inr free ↦
            rw free
              (not_taken now k rows n (omega (arith, count_year-cons_le (year_of now) r rows)))
      ]

  -- With a new id a creation is never refused for its number.
  pub create_invoice_lem :
      (rows : List InvoiceRow)
      → IsNumbered rows
      → (id : String) (now : ℕ) (org_id subscription_id : String) (amount : ℕ)
        (description : String)
      → any (has_id id) rows ≡ false
      → create_invoice year_of id now org_id subscription_id amount description rows ≡ (
          let r =
            issued_row id now
              (number (year_of now) (suc (count_year (year_of now) rows)))
              org_id
              subscription_id
              amount
              description in
          ok (into_invoice r, r ∷ rows))
  unfolding create_invoice generate_invoice_number insert_invoice insert_row issued_row
  create_invoice_lem rows n id now org_id subscription_id amount description new =
      rw (new, not_taken now (suc (count_year (year_of now) rows)) rows n (omega arith)) refl

  count_year-map :
      (f : InvoiceRow → InvoiceRow)
      → ((r : InvoiceRow) → (f r).invoice_number ≡ r.invoice_number)
      → (year : List ℕ) (rows : List InvoiceRow)
      → count_year year (map f rows) ≡ count_year year rows
  unfolding retain
  count_year-map f same year [] = refl
  count_year-map f same year (r ∷ rows) =
      rw (same r) (ground (arith, count_year-map f same year rows))

  pub IsNumbered-map :
      (f : InvoiceRow → InvoiceRow)
      → ((r : InvoiceRow) → (f r).invoice_number ≡ r.invoice_number)
      → (rows : List InvoiceRow) → IsNumbered rows
      → IsNumbered (map f rows)
  IsNumbered-map f same [] n = tt
  IsNumbered-map f same (r ∷ rows) ((t, e), n) = (
    (
      t,
      same r
          ∙ (e
              ∙ ap (λ c. number (year_of t) (suc c))
                  (sym (count_year-map f same (year_of t) rows))),
    ),
    IsNumbered-map f same rows n,
  )
