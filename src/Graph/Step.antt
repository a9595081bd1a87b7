-- ===== src/Graph/Step.antt =====
-- What one offer of a neighbour does to the local state of `bfs`.
use angavu_intelligence_back.Common.{
  ℕ, suc, ◌+◌, ◌≤◌, ◌<◌, ◌≡◌, refl, Bool, true, false, Option, none, some, List, [], ◌∷◌, ◌++◌, inl,
  inr, length, length-append, map, any, if◌then◌else◌, Bool-cases, arith,
}
use mathlib.Core.List.{Memᴰ}
use mathlib.Core.List.Memᴰ
use angavu_intelligence_back.Graph.{Search, get, contains, found, offer, scan}
use angavu_intelligence_back.Graph.Walk.{Memᴰ-cons}

-- The distances in the queue do not fall, and start at `low` or above.
unfoldable pub IsSorted : ℕ → List (ℕ × ℕ) → Type 0
IsSorted low [] = Unit
IsSorted low ((v, d) ∷ q) = (low ≤ d) × IsSorted d q

pub IsSorted-concat :
    (low top v : ℕ) (q : List (ℕ × ℕ))
    → low ≤ top
    → ((w e : ℕ) → Memᴰ (w, e) q → e ≤ top)
    → IsSorted low q
    → IsSorted low (q ++ (v, top) ∷ [])
unfolding IsSorted
IsSorted-concat low top v [] h all s = (h, tt)
IsSorted-concat low top v ((w, e) ∷ q) h all s =
    (s.0, IsSorted-concat e top v q (all w e (Memᴰ.head refl)) (λ x f m. all x f (Memᴰ.tail m)) s.1)

-- The nodes that are known are those that have a depth.
abbrev pub IsSynced : Search → Type 0
IsSynced s = s.visited_set ≡ map (λ p. p.0) s.depths

abbrev has {ℓ} : {A : Type ℓ} → Option A → Bool
has none = false
has (some _) = true

contains-keys : (m : List (ℕ × ℕ)) (v : ℕ) → contains (map (λ p. p.0) m) v ≡ has (get v m)
unfolding contains any get
contains-keys [] v = refl
contains-keys ((j, d) ∷ m) v = ground (arith, contains-keys m v)

pub contains-has :
    (s : Search) (v : ℕ) → IsSynced s → contains s.visited_set v ≡ has (get v s.depths)
contains-has s v h = rw h (contains-keys s.depths v)

-- The nodes of a list that are not known yet.
unfoldable pub unseen : List ℕ → List ℕ → ℕ
unseen seen [] = 0
unseen seen (v ∷ vs) = let n = unseen seen vs in if contains seen v then n else suc n

pub unseen-le : (seen vs : List ℕ) → unseen seen vs ≤ length vs
unfolding unseen
unseen-le seen [] = omega arith
unseen-le seen (v ∷ vs) = ground (arith, unseen-le seen vs)

unseen-cons_le : (w : ℕ) (seen vs : List ℕ) → unseen (w ∷ seen) vs ≤ unseen seen vs
unfolding unseen contains any
unseen-cons_le w seen [] = omega arith
unseen-cons_le w seen (v ∷ vs) = ground (arith, unseen-cons_le w seen vs)

pub unseen-cons_lt :
    (w : ℕ) (seen vs : List ℕ)
    → contains seen w ≡ false
    → Memᴰ w vs
    → unseen (w ∷ seen) vs < unseen seen vs
unfolding unseen contains any
unseen-cons_lt w seen [] h m = absurd (Memᴰ.not-nil m)
unseen-cons_lt w seen (v ∷ vs) h m =
    ground (arith, unseen-cons_lt w seen vs, unseen-cons_le w seen vs, Memᴰ-cons w v vs)

-- The work that is left. An offer of a node of `ends` does not add to it.
abbrev pub work : List ℕ → Search → ℕ
work ends s = unseen s.visited_set ends + length s.queue

offer-work :
    (ends : List ℕ) (node depth : ℕ) (s : Search) (v : ℕ)
    → Memᴰ v ends
    → work ends (offer node depth s v) ≤ work ends s
unfolding offer found
offer-work ends node depth s v m = elim (Bool-cases (contains s.visited_set v)) [
  | inl e ↦ rw e (omega arith)
  | inr e ↦ rw e (
      omega (
        arith,
        unseen-cons_lt v s.visited_set ends e m,
        length-append s.queue ((v, suc depth) ∷ []),
      ))
]

pub scan-work :
    (ends : List ℕ) (node depth : ℕ) (s : Search) (vs : List ℕ)
    → ((v : ℕ) → Memᴰ v vs → Memᴰ v ends)
    → work ends (scan node depth s vs) ≤ work ends s
unfolding scan
scan-work ends node depth s [] all = omega arith
scan-work ends node depth s (v ∷ vs) all = omega (
  arith,
  offer-work ends node depth s v (all v (Memᴰ.head refl)),
  scan-work ends node depth (offer node depth s v) vs (λ w m. all w (Memᴰ.tail m)),
)
