-- ===== src/Invoice/Listing/Page.antt =====
-- What `list_invoices` shows.
use angavu_intelligence_back.Common.{
  sym, ℕ, zero, suc, ◌≤◌, ◌≡◌, refl, true, Option, some, none, List, [], ◌∷◌, map, length, String,
  str_eq_iff, ok, All, retain, retain-All, drop, leb, leb→le, Result-cases, arith, Bool-cases, inl,
  inr,
}
use angavu_intelligence_back.Invoice.{Invoice, InvoiceRow, into_invoice}
use angavu_intelligence_back.Invoice.Listing.{
  ℤ, pos, negsuc, InvoiceListParams, take, insert_newest, newest_first, listed, limit_of, offset_of,
  page, invoices, list_invoices,
}

-- None is older than one that follows.
abbrev pub IsNewestFirst {ℓ} : {A : Type ℓ} → (A → ℕ) → List A → Type 0
IsNewestFirst time [] = Unit
IsNewestFirst time (x ∷ xs) = All (λ y. time y ≤ time x) xs × IsNewestFirst time xs

module _ {A : Type 0} where
  All-map : {P Q : A → Type 0} → ((x : A) → P x → Q x) → (xs : List A) → All P xs → All Q xs
  All-map f [] h = tt
  All-map f (x ∷ xs) h = (f x h.0, All-map f xs h.1)

  All-take : (P : A → Type 0) (n : ℕ) (xs : List A) → All P xs → All P (take n xs)
  unfolding take
  All-take P zero xs h = tt
  All-take P (suc n) [] h = tt
  All-take P (suc n) (x ∷ xs) h = (h.0, All-take P n xs h.1)

  All-drop : (P : A → Type 0) (n : ℕ) (xs : List A) → All P xs → All P (drop n xs)
  unfolding drop
  All-drop P zero xs h = h
  All-drop P (suc n) [] h = tt
  All-drop P (suc n) (x ∷ xs) h = All-drop P n xs h.1

  newest_take :
      (time : A → ℕ) (n : ℕ) (xs : List A) → IsNewestFirst time xs → IsNewestFirst time (take n xs)
  unfolding take
  newest_take time zero xs h = tt
  newest_take time (suc n) [] h = tt
  newest_take time (suc n) (x ∷ xs) h =
      (All-take (λ y. time y ≤ time x) n xs h.0, newest_take time n xs h.1)

  newest_drop :
      (time : A → ℕ) (n : ℕ) (xs : List A) → IsNewestFirst time xs → IsNewestFirst time (drop n xs)
  unfolding drop
  newest_drop time zero xs h = h
  newest_drop time (suc n) [] h = tt
  newest_drop time (suc n) (x ∷ xs) h = newest_drop time n xs h.1

  length-take : (n : ℕ) (xs : List A) → length (take n xs) ≤ n
  unfolding take
  length-take zero xs = omega arith
  length-take (suc n) [] = omega arith
  length-take (suc n) (x ∷ xs) = omega (arith, length-take n xs)

insert_newest-All :
    (P : InvoiceRow → Type 0) (r : InvoiceRow) (rows : List InvoiceRow)
    → P r
    → All P rows
    → All P (insert_newest r rows)
unfolding insert_newest
insert_newest-All P r [] p h = (p, tt)
insert_newest-All P r (s ∷ rows) p h = elim (Bool-cases (leb s.created_at r.created_at)) [
  | inl e ↦ rw e (p, h)
  | inr e ↦ rw e (h.0, insert_newest-All P r rows p h.1)
]

abbrev created : InvoiceRow → ℕ
created r = r.created_at

insert_newest-IsNewestFirst :
    (r : InvoiceRow) (rows : List InvoiceRow)
    → IsNewestFirst created rows
    → IsNewestFirst created (insert_newest r rows)
unfolding insert_newest
insert_newest-IsNewestFirst r [] h = (tt, tt)
insert_newest-IsNewestFirst r (s ∷ rows) h = elim (Bool-cases (leb s.created_at r.created_at)) [
  | inl e ↦ rw e (((leb→le _ _ e), All-map (λ y le. omega (arith, le, leb→le _ _ e)) rows h.0), h)
  | inr e ↦ rw e (
    insert_newest-All (λ y. created y ≤ created s) r rows (ground arith) h.0,
    insert_newest-IsNewestFirst r rows h.1,
  )
]

newest_first-All :
    (P : InvoiceRow → Type 0) (rows : List InvoiceRow) → All P rows → All P (newest_first rows)
unfolding newest_first
newest_first-All P [] h = tt
newest_first-All P (r ∷ rows) h =
    insert_newest-All P r (newest_first rows) h.0 (newest_first-All P rows h.1)

newest_first-IsNewestFirst : (rows : List InvoiceRow) → IsNewestFirst created (newest_first rows)
unfolding newest_first
newest_first-IsNewestFirst [] = tt
newest_first-IsNewestFirst (r ∷ rows) =
    insert_newest-IsNewestFirst r (newest_first rows) (newest_first-IsNewestFirst rows)

-- What holds of the rows that are listed.
abbrev pub Shown : String → List InvoiceRow → Type 0
Shown org_id rows =
    (length rows ≤ 100) × All (λ r. r.org_id ≡ org_id) rows × IsNewestFirst created rows

listed-org :
    (org_id : String) (status : Option String) (r : InvoiceRow)
    → listed org_id status r ≡ true
    → r.org_id ≡ org_id
unfolding listed
listed-org org_id none r h = ground (arith, str_eq_iff r.org_id org_id)
listed-org org_id (some status) r h = ground (arith, str_eq_iff r.org_id org_id)

retained-org :
    (org_id : String) (status : Option String) (rows : List InvoiceRow)
    → All (λ r. r.org_id ≡ org_id) (retain (listed org_id status) rows)
retained-org org_id status rows =
    All-map (listed-org org_id status) (retain (listed org_id status) rows)
      (retain-All (listed org_id status) rows)

limit_of-le : (o : Option ℤ) (n : ℕ) → limit_of o ≡ pos n → n ≤ 100
unfolding limit_of
limit_of-le none n h = ground arith
limit_of-le (some (pos m)) n h = ground arith
limit_of-le (some (negsuc m)) n h = cc

page-Shown :
    (org_id : String) (limit offset : ℤ) (rows shown : List InvoiceRow)
    → ((n : ℕ) → limit ≡ pos n → n ≤ 100)
    → All (λ r. r.org_id ≡ org_id) rows
    → IsNewestFirst created rows
    → page limit offset rows ≡ ok shown
    → Shown org_id shown
unfolding page
page-Shown org_id (pos n) (pos m) rows shown le own sorted h =
    let same : take n (drop m rows) ≡ shown = ground arith in
    rw (sym same) (
      omega (arith, length-take n (drop m rows), le n refl),
      All-take (λ r. r.org_id ≡ org_id) n (drop m rows)
          (All-drop (λ r. r.org_id ≡ org_id) m rows own),
      newest_take created n (drop m rows) (newest_drop created m rows sorted),
    )
page-Shown org_id (pos n) (negsuc m) rows shown le own sorted h = cc
page-Shown org_id (negsuc n) offset rows shown le own sorted h = cc

-- A list of invoices, where one is returned, holds at most 100, all of the organisation that asks, and
-- none before a newer one.
pub list_invoices-Shown :
    (org_id : String) (params : InvoiceListParams) (rows : List InvoiceRow) (l : List Invoice)
    → list_invoices org_id params rows ≡ ok l
    → (shown : List InvoiceRow) × (l ≡ map into_invoice shown) × Shown org_id shown
unfolding list_invoices invoices
list_invoices-Shown org_id params rows l h =
    let found = retain (listed org_id params.status) rows in
    let limit = limit_of params.limit in
    let offset = offset_of params.offset in
    elim (Result-cases (page limit offset (newest_first found))) [
      | inl (e, refusal) ↦ absurd (ground (arith, refusal, h))
      | inr (shown, returns) ↦ (
        shown,
        ground (arith, returns, h),
        page-Shown org_id limit offset (newest_first found) shown (limit_of-le params.limit)
            (newest_first-All (λ r. r.org_id ≡ org_id) found
              (retained-org org_id params.status rows))
            (newest_first-IsNewestFirst found) returns,
      )
    ]
