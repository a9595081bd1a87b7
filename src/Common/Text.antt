-- ===== src/Common/Text.antt =====
-- Text as its code points. `to_lowercase` is that of Unicode as far as a search for ASCII text can tell: a
-- code point beyond ASCII whose lower case has no ASCII in it is left as it is.
use Prim.Native.Nat.{ℕ, ◌+◌}
use Prim.Native.Char.{code}
use Prim.Native.String.{String}
use mathlib.Core.Bool.{Bool, true, false, ◌&&◌}
use mathlib.Core.List.{List, [], ◌∷◌, ◌++◌}
use angavu_intelligence_back.Common.Tests.{leb, ◌==◌, if◌then◌else◌}

abbrev pub codes : String → List ℕ
codes String.[] = []
codes (String.◌∷◌ c s) = code c ∷ codes s

-- The lower case of a code point. Beyond ASCII, only that of U+0130 and that of the Kelvin sign U+212A
-- have ASCII in them; all others have none.
lower : ℕ → List ℕ
lower c =
    if leb 65 c && leb c 90
    then (c + 32) ∷ []
    else if c == 304
    then 105 ∷ 775 ∷ []
    else if c == 8490
    then 107 ∷ []
    else c ∷ []

unfoldable pub to_lowercase : List ℕ → List ℕ
unfolding lower
to_lowercase [] = []
to_lowercase (c ∷ s) = lower c ++ to_lowercase s

unfoldable pub same_text : List ℕ → List ℕ → Bool
same_text [] [] = true
same_text (a ∷ s) (b ∷ t) = a == b && same_text s t
same_text _ _ = false
