-- ===== src/Common/Lists.antt =====
-- Lists measured by native numbers, filtered by Boolean tests, and predicates on all elements.
use Prim.Native.Nat.{ℕ, zero, suc, ◌+◌, ◌-◌, ◌≤◌, ◌<◌}
use mathlib.Core.Path.{◌≡◌, refl}
use mathlib.Core.Bool.{Bool, true, false, ◌||◌}
use mathlib.Core.List.{List, [], ◌∷◌, ◌++◌}
use mathlib.Core.Option.{Option, none, some}
use native.Mathlib.Omega.{arith}
use angavu_intelligence_back.Common.Tests.{leb, if◌then◌else◌}

module _ {ℓ} {A : Type ℓ} where
  abbrev pub length : List A → ℕ
  length [] = 0
  length (x ∷ xs) = suc (length xs)

  abbrev pub get_elem? : List A → ℕ → Option A
  get_elem? [] i = none
  get_elem? (x ∷ xs) zero = some x
  get_elem? (x ∷ xs) (suc i) = get_elem? xs i

  unfoldable pub drop : ℕ → List A → List A
  drop zero xs = xs
  drop (suc n) [] = []
  drop (suc n) (x ∷ xs) = drop n xs

  pub length-append : (xs ys : List A) → length (xs ++ ys) ≡ length xs + length ys
  length-append [] ys = omega arith
  length-append (x ∷ xs) ys = omega (arith, length-append xs ys)

  pub length-drop : (n : ℕ) (xs : List A) → length (drop n xs) ≡ length xs - n
  unfolding drop
  length-drop zero xs = omega arith
  length-drop (suc n) [] = omega arith
  length-drop (suc n) (x ∷ xs) = omega (arith, length-drop n xs)

-- `retain` of a vector and `filter` of an iterator.
unfoldable pub retain {ℓ} : {A : Type ℓ} → (A → Bool) → List A → List A
retain p [] = []
retain p (x ∷ xs) = let rest = retain p xs in if p x then x ∷ rest else rest

-- `any` of an iterator, and `EXISTS` of a query.
unfoldable pub any {ℓ} : {A : Type ℓ} → (A → Bool) → List A → Bool
any p [] = false
any p (x ∷ xs) = p x || any p xs

abbrev pub All {ℓ κ} : {A : Type ℓ} → (A → Type κ) → List A → Type κ
All P [] = Unit
All P (x ∷ xs) = P x × All P xs

module _ {ℓ} {A : Type ℓ} (p : A → Bool) where
  pub length-retain-le : (xs : List A) → length (retain p xs) ≤ length xs
  unfolding retain
  length-retain-le [] = omega arith
  length-retain-le (x ∷ xs) = ground (arith, length-retain-le xs)

  pub retain-All : (xs : List A) → All (λ x. p x ≡ true) (retain p xs)
  unfolding retain
  retain-All [] = tt
  retain-All (x ∷ xs) = ground (arith, retain-All xs)

module _ {ℓ} {A : Type ℓ} where
  pub drop-append : (xs ys : List A) → drop (length xs) (xs ++ ys) ≡ ys
  unfolding drop
  drop-append [] ys = refl
  drop-append (x ∷ xs) ys = drop-append xs ys

  -- The last element.
  pub drop-concat : (xs : List A) (x : A) → drop (length (xs ++ x ∷ []) - 1) (xs ++ x ∷ []) ≡ x ∷ []
  drop-concat xs x =
      let e : length (xs ++ x ∷ []) - 1 ≡ length xs = omega (arith, length-append xs (x ∷ [])) in
      rw e (drop-append xs (x ∷ []))

  -- `if log.len() >= cap { log.drain(0..n); }`
  unfoldable pub trim : ℕ → ℕ → List A → List A
  trim cap n log = if leb cap (length log) then drop n log else log

  pub length-trim :
      (cap n : ℕ) (log : List A)
      → 0 < n
      → n ≤ cap
      → length log ≤ cap
      → length (trim cap n log) < cap
  unfolding trim
  length-trim cap n log pos fits h = ground (arith, length-drop n log)
