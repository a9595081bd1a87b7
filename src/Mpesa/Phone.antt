-- ===== src/Mpesa/Phone.antt =====
-- rust-api/src/billing/mpesa.rs: `normalize_phone`. The codes of the digits are 48 to 57.
use angavu_intelligence_back.Common.{
  ℕ, ◌≡◌, ◌⊎◌, inl, inr, Bool, true, false, not, ◌&&◌, ◌||◌, List, [], ◌∷◌, ◌++◌, length, Result,
  ok, err, retain, drop, leb, ◌==◌, if◌then◌else◌, Result-cases, length-drop, arith,
}
use angavu_intelligence_back.Mpesa.{Error, invalid_phone, not_safaricom}

abbrev pub is_ascii_digit : ℕ → Bool
is_ascii_digit c = leb 48 c && leb c 57

unfoldable pub starts_with : List ℕ → List ℕ → Bool
starts_with [] s = true
starts_with (p ∷ ps) [] = false
starts_with (p ∷ ps) (c ∷ s) = p == c && starts_with ps s

-- "254"
abbrev pub country : List ℕ
country = 50 ∷ 53 ∷ 52 ∷ []

-- The number with its country code, before the check of the prefix.
unfoldable pub international : List ℕ → Result Error (List ℕ)
international cleaned =
    if starts_with country cleaned && length cleaned == 12
    then ok cleaned
    else if starts_with (48 ∷ []) cleaned && length cleaned == 10
    then ok (country ++ drop 1 cleaned)
    else if starts_with (55 ∷ []) cleaned && length cleaned == 9
    then ok (country ++ cleaned)
    else if starts_with (49 ∷ []) cleaned && length cleaned == 9
    then ok (country ++ cleaned)
    else if length cleaned == 10 && not (starts_with (48 ∷ []) cleaned)
    then ok (country ++ cleaned)
    else err invalid_phone

-- "2547" or "2541"
unfoldable pub is_safaricom : List ℕ → Bool
is_safaricom n = starts_with (country ++ 55 ∷ []) n || starts_with (country ++ 49 ∷ []) n

unfoldable pub checked : Result Error (List ℕ) → Result Error (List ℕ)
checked (err e) = err e
checked (ok n) = if not (is_safaricom n) then err not_safaricom else ok n

unfoldable pub normalize_phone : List ℕ → Result Error (List ℕ)
normalize_phone phone = checked (international (retain is_ascii_digit phone))

length-international :
    (cleaned n : List ℕ)
    → international cleaned ≡ ok n
    → (length n ≡ 12)
      ⊎ (length n ≡ 13) × (length cleaned ≡ 10) × (starts_with (48 ∷ []) cleaned ≡ false)
unfolding international
length-international cleaned n h = ground (arith, length-drop 1 cleaned)

-- A number that is accepted starts with 2547 or 2541 and has 12 digits, or 13 where ten digits were
-- given that do not start with 0.
pub normalize_phone-length :
    (phone n : List ℕ)
    → normalize_phone phone ≡ ok n
    → let cleaned = retain is_ascii_digit phone in
      (is_safaricom n ≡ true)
      × ((length n ≡ 12)
          ⊎ (length n ≡ 13) × (length cleaned ≡ 10) × (starts_with (48 ∷ []) cleaned ≡ false))
unfolding normalize_phone checked
normalize_phone-length phone n h =
    elim (Result-cases (international (retain is_ascii_digit phone))) [
      | inl (e, p) ↦ absurd (ground (arith, p))
      | inr (m, p) ↦
          let accepted : (is_safaricom m ≡ true) × (m ≡ n) = ground (arith, p, h) in
          let shape = length-international (retain is_ascii_digit phone) m p in
          ground (arith, accepted, shape)
    ]
