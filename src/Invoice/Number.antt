-- ===== src/Invoice/Number.antt =====
-- rust-api/src/billing/invoice.rs: the text of an invoice number, `format!("INV-{}-{:05}", year, seq)`, and
-- the pattern `INV-{year}-%` by which the numbers of a year are counted. A text is its code points.
use angavu_intelligence_back.Common.{
  ℕ, zero, suc, ◌+◌, ◌-◌, ◌/◌, ◌%◌, Bool, true, false, ◌&&◌, List, [], ◌∷◌, ◌++◌, length, codes,
  ltb, ◌==◌, if◌then◌else◌,
}
pub mod Text

-- The decimal digits of a number.
unfoldable pub decimal_on : ℕ → ℕ → List ℕ
decimal_on zero n = []
decimal_on (suc fuel) n =
    let rest = decimal_on fuel (n / 10) ++ (48 + n % 10) ∷ [] in
    if ltb n 10 then (48 + n) ∷ [] else rest

unfoldable pub decimal : ℕ → List ℕ
unfolding decimal_on
decimal n = decimal_on (suc n) n

unfoldable pub zeros : ℕ → List ℕ
zeros zero = []
zeros (suc n) = 48 ∷ zeros n

-- `{:05}`
unfoldable pub padded : ℕ → List ℕ
unfolding decimal zeros
padded n = zeros (5 - length (decimal n)) ++ decimal n

-- `INV-{year}-`
unfoldable pub year_prefix : List ℕ → List ℕ
year_prefix year = codes "INV-" ++ (year ++ 45 ∷ [])

unfoldable pub number : List ℕ → ℕ → List ℕ
number year seq = codes "INV-" ++ (year ++ 45 ∷ padded seq)

unfoldable pub starts_with : List ℕ → List ℕ → Bool
starts_with [] text = true
starts_with (a ∷ s) [] = false
starts_with (a ∷ s) (b ∷ text) = a == b && starts_with s text

-- `invoice_number LIKE 'INV-{year}-%'`
unfoldable pub like_year : List ℕ → List ℕ → Bool
like_year year text = starts_with (year_prefix year) text
