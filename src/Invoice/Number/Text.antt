-- ===== src/Invoice/Number/Text.antt =====
-- An invoice number says its year and its sequence number, and the pattern of a year fits its numbers only.
use angavu_intelligence_back.Common.{
  ℕ, zero, suc, ◌+◌, ◌-◌, ◌*◌, ◌/◌, ◌%◌, ◌<◌, ◌≡◌, ◌≢◌, ◌∙◌, refl, sym, ap, true, List, [], ◌∷◌,
  ◌++◌, length, All, arith,
}
use angavu_intelligence_back.Invoice.Number.{
  decimal_on, decimal, zeros, padded, year_prefix, number, starts_with, like_year,
}

-- The number that digits stand for, after those that were read.
value : ℕ → List ℕ → ℕ
value acc [] = acc
value acc (c ∷ s) = value (acc * 10 + (c - 48)) s

value-concat : (acc c : ℕ) (s : List ℕ) → value acc (s ++ c ∷ []) ≡ value acc s * 10 + (c - 48)
unfolding value
value-concat acc c [] = refl
value-concat acc c (d ∷ s) = value-concat (acc * 10 + (d - 48)) c s

value-decimal_on : (fuel n : ℕ) → n < fuel → value 0 (decimal_on fuel n) ≡ n
unfolding decimal_on value
value-decimal_on zero n h = absurd (omega arith)
value-decimal_on (suc fuel) n h =
    ground (
      arith,
      value-concat 0 (48 + n % 10) (decimal_on fuel (n / 10)),
      value-decimal_on fuel (n / 10),
    )

value-zeros : (k : ℕ) (s : List ℕ) → value 0 (zeros k ++ s) ≡ value 0 s
unfolding zeros value
value-zeros zero s = refl
value-zeros (suc k) s = value-zeros k s

value-padded : (n : ℕ) → value 0 (padded n) ≡ n
unfolding padded decimal
value-padded n =
    value-zeros (5 - length (decimal n)) (decimal n) ∙ value-decimal_on (suc n) n (omega arith)

-- A year is written without dashes.
abbrev pub IsPlain : List ℕ → Type 0
IsPlain = All (λ c. c ≢ 45)

head_eq : {a b : ℕ} {s t : List ℕ} → (a ∷ s) ≡ (b ∷ t) → a ≡ b
head_eq e = cc

tail_eq : {a b : ℕ} {s t : List ℕ} → (a ∷ s) ≡ (b ∷ t) → s ≡ t
tail_eq e = cc

split_dash :
    (y z s t : List ℕ) → IsPlain y → IsPlain z → y ++ 45 ∷ s ≡ z ++ 45 ∷ t → (y ≡ z) × (s ≡ t)
split_dash [] [] s t p q e = (refl, tail_eq e)
split_dash [] (b ∷ z) s t p q e = absurd (q.0 (sym (head_eq e)))
split_dash (a ∷ y) [] s t p q e = absurd (p.0 (head_eq e))
split_dash (a ∷ y) (b ∷ z) s t p q e =
    let (same, rest) = split_dash y z s t p.1 q.1 (tail_eq e) in
    (ground (arith, same, head_eq e), rest)

-- Two numbers are the same only if they have the same year and the same place in it.
pub number-eq :
    (y z : List ℕ) (m n : ℕ) → IsPlain y → IsPlain z → number y m ≡ number z n → (y ≡ z) × (m ≡ n)
unfolding number
number-eq y z m n p q e =
    let (same, rest) =
      split_dash y z (padded m) (padded n) p q (tail_eq (tail_eq (tail_eq (tail_eq e)))) in
    (same, sym (value-padded m) ∙ (ap (value 0) rest ∙ value-padded n))

starts_with-dash : (y s : List ℕ) → starts_with (y ++ 45 ∷ []) (y ++ 45 ∷ s) ≡ true
unfolding starts_with
starts_with-dash [] s = refl
starts_with-dash (a ∷ y) s = ground (arith, starts_with-dash y s)

pub like_year-number : (y : List ℕ) (n : ℕ) → like_year y (number y n) ≡ true
unfolding like_year number year_prefix starts_with
like_year-number y n = starts_with-dash y (padded n)
