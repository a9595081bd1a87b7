-- ===== src/Common/Maps.antt =====
-- A hash map with text keys as an association list, in which each key stands once.
use Prim.Native.String.{String}
use mathlib.Core.Path.{◌≡◌, refl}
use mathlib.Core.Logic.{◌≢◌}
use mathlib.Core.Option.{Option, none, some}
use mathlib.Core.List.{List, [], ◌∷◌}
use native.Mathlib.Omega.{arith}
use text.Mathlib.Text.{◌==◌ as str_eq}
use text.Mathlib.TextEquality.{eq_iff as str_eq_iff}
use text.Mathlib.TextPositions.{eq_refl as str_eq_refl}
use angavu_intelligence_back.Common.Tests.{if◌then◌else◌}

module _ {ℓ} {A : Type ℓ} where
  unfoldable pub find : String → List (String × A) → Option A
  find k [] = none
  find k ((j, a) ∷ m) = if str_eq j k then some a else find k m

  unfoldable pub insert : String → A → List (String × A) → List (String × A)
  insert k v [] = (k, v) ∷ []
  insert k v ((j, a) ∷ m) = if str_eq j k then (k, v) ∷ m else (j, a) ∷ insert k v m

  pub find-insert :
      (k j : String) (v : A) (m : List (String × A))
      → find j (insert k v m) ≡ (if str_eq k j then some v else find j m)
  unfolding find insert
  find-insert k j v [] = refl
  find-insert k j v ((i, w) ∷ m) =
      ground (arith, str_eq_iff k j, str_eq_iff i k, str_eq_iff i j, find-insert k j v m)

  pub find-insert_self :
      (k : String) (v : A) (m : List (String × A)) → find k (insert k v m) ≡ some v
  find-insert_self k v m = ground (arith, find-insert k k v m, str_eq_refl k)

  pub find-insert_ne :
      (k j : String) (v : A) (m : List (String × A)) → j ≢ k → find j (insert k v m) ≡ find j m
  find-insert_ne k j v m h = ground (arith, find-insert k j v m, str_eq_iff k j)
