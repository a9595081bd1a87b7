-- ===== src/Breaker/ErrorText.antt =====
-- rust-api/src/loops/circuit_breaker.rs: `is_system_error`. A text is its code points, in lower case by
-- Common/Text, which has all that a search for the markers, which are ASCII, can find.
use angavu_intelligence_back.Common.{
  any, ◌∙◌, ◌⊎◌, ◌↔◌, ℕ, ◌≡◌, refl, ap, ap₂, Bool, true, false, ◌&&◌, ◌||◌, List, [], ◌∷◌, ◌++◌,
  codes, to_lowercase, ◌==◌, Bool-cases, inl, inr, arith,
}

starts_with : List ℕ → List ℕ → Bool
starts_with s [] = true
starts_with [] (p ∷ ps) = false
starts_with (c ∷ s) (p ∷ ps) = c == p && starts_with s ps

unfoldable pub contains : List ℕ → List ℕ → Bool
unfolding starts_with
contains [] p = starts_with [] p
contains (c ∷ s) p = starts_with (c ∷ s) p || contains s p

unfoldable pub is_system_error : List ℕ → Bool
unfolding contains to_lowercase
is_system_error error_msg =
    let l = to_lowercase error_msg in
    contains l (codes "timeout")
    || contains l (codes "connection refused")
    || contains l (codes "connection reset")
    || contains l (codes "dns")
    || contains l (codes "network")
    || contains l (codes "503")
    || contains l (codes "502")
    || contains l (codes "504")

starts_with-append : (p rest : List ℕ) → starts_with (p ++ rest) p ≡ true
unfolding starts_with
starts_with-append [] rest = refl
starts_with-append (c ∷ p) rest = ground (arith, starts_with-append p rest)

starts_with_sound : (s p : List ℕ) → starts_with s p ≡ true → (rest : List ℕ) × (s ≡ p ++ rest)
unfolding starts_with
starts_with_sound s [] h = (s, refl)
starts_with_sound [] (p ∷ ps) h = absurd (ground arith)
starts_with_sound (c ∷ s) (p ∷ ps) h =
    let (rest, e) = starts_with_sound s ps (ground arith) in (rest, ap₂ ◌∷◌ (ground arith) e)

starts_with-contains : (s p : List ℕ) → starts_with s p ≡ true → contains s p ≡ true
unfolding contains
starts_with-contains [] p h = h
starts_with-contains (c ∷ s) p h = rw h

contains_complete : (before p rest : List ℕ) → contains (before ++ (p ++ rest)) p ≡ true
unfolding contains
contains_complete [] p rest = starts_with-contains (p ++ rest) p (starts_with-append p rest)
contains_complete (c ∷ before) p rest = ground (arith, contains_complete before p rest)

contains_sound :
    (s p : List ℕ)
    → contains s p ≡ true
    → (before : List ℕ) × (rest : List ℕ) × (s ≡ before ++ (p ++ rest))
unfolding contains
contains_sound [] p h = let (rest, e) = starts_with_sound [] p h in ([], rest, e)
contains_sound (c ∷ s) p h = elim (Bool-cases (starts_with (c ∷ s) p)) [
  | inl here ↦ let (rest, e) = starts_with_sound (c ∷ s) p here in ([], rest, e)
  | inr there ↦
      let (before, rest, e) = contains_sound s p (rw there at h) in (c ∷ before, rest, ap (◌∷◌ c) e)
]

-- The texts that mark a system error.
abbrev pub markers : List (List ℕ)
markers =
    codes "timeout"
    ∷ codes "connection refused"
    ∷ codes "connection reset"
    ∷ codes "dns"
    ∷ codes "network"
    ∷ codes "503"
    ∷ codes "502"
    ∷ codes "504"
    ∷ []

abbrev Occurs : List ℕ → List ℕ → Type 0
Occurs s p = (before : List ℕ) × (rest : List ℕ) × (s ≡ before ++ (p ++ rest))

-- One of the texts `ps` occurs in `s`.
abbrev pub OneOccurs : List ℕ → List (List ℕ) → Type 0
OneOccurs s [] = ⊥
OneOccurs s (p ∷ ps) = Occurs s p ⊎ OneOccurs s ps

any_sound : (s : List ℕ) (ps : List (List ℕ)) → any (contains s) ps ≡ true → OneOccurs s ps
unfolding any
any_sound s [] h = ground arith
any_sound s (p ∷ ps) h = elim (Bool-cases (contains s p)) [
  | inl here ↦ inl (contains_sound s p here)
  | inr there ↦ inr (any_sound s ps (rw there at h))
]

any_complete : (s : List ℕ) (ps : List (List ℕ)) → OneOccurs s ps → any (contains s) ps ≡ true
unfolding any
any_complete s [] h = absurd h
any_complete s (p ∷ ps) (inl (before, rest, e)) = rw (e, contains_complete before p rest) refl
any_complete s (p ∷ ps) (inr h) = ground (arith, any_complete s ps h)

is_system_error-any : (e : List ℕ) → is_system_error e ≡ any (contains (to_lowercase e)) markers
unfolding is_system_error any
is_system_error-any e = ground arith

-- An error counts as a system error exactly when one of the eight markers occurs in the lower case of
-- its text.
pub is_system_error-OneOccurs :
    (e : List ℕ) → (is_system_error e ≡ true) ↔ OneOccurs (to_lowercase e) markers
is_system_error-OneOccurs e = (
  (λ h. any_sound (to_lowercase e) markers (rw (is_system_error-any e) at h)),
  λ h. is_system_error-any e ∙ any_complete (to_lowercase e) markers h,
)
