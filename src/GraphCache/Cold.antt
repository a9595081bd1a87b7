-- ===== src/GraphCache/Cold.antt =====
-- What the caches answer after `invalidate_all`.
use angavu_intelligence_back.Common.{
  ℕ, ◌≤◌, ◌≡◌, ◌≢◌, ◌⊎◌, refl, ◌∙◌, ap, Bool, ◌||◌, true, false, Option, some, none, List, [], ◌∷◌,
  ◌++◌, String, ok, any, same_text, Bool-cases, Option-cases, Result-cases, inl, inr, arith,
}
use angavu_intelligence_back.Invoice.Number.{starts_with}
use angavu_intelligence_back.GraphCache.{
  Key, Redis, Json, prefix_pagerank, prefix_community, patterns, all_key, subgraph_key, stats_key,
  read, delete_rounds, invalidate_patterns, invalidate_all, get_pagerank, get_communities,
  get_subgraph, get_stats,
}

starts_with-append : (p s : Key) → starts_with p (p ++ s) ≡ true
unfolding starts_with
starts_with-append [] s = refl
starts_with-append (a ∷ p) s = ground (arith, starts_with-append p s)

-- One of the patterns finds the key.
abbrev Covered : Key → Type 0
Covered k = any (λ p. starts_with p k) patterns ≡ true

or_right : (a b : Bool) → a || b ≡ true → a ≡ false → b ≡ true
or_right false b h e = h
or_right true b h e = cc

module _ (redis : Redis) where
  -- Nothing stands under the key.
  abbrev Gone : ℕ → Key → redis.State → Type 0
  Gone later k s = redis.holds later k s ≡ none

  del-Gone :
      (later : ℕ) (k : Key) (keys : List Key) (s t : redis.State)
      → redis.del keys s ≡ some t
      → (any (same_text k) keys ≡ true) ⊎ Gone later k s
      → Gone later k t
  del-Gone later k keys s t e (inl named) = redis.holds-del later k keys s t e ∙ rw named refl
  del-Gone later k keys s t e (inr gone) = ground (arith, redis.holds-del later k keys s t e)

  delete_rounds-Gone :
      (later : ℕ) (k : Key) (rounds : List (List Key)) (s t : redis.State)
      → delete_rounds redis rounds s ≡ ok t
      → Gone later k s
      → Gone later k t
  unfolding delete_rounds
  delete_rounds-Gone later k [] s t = λ h gone. cc
  delete_rounds-Gone later k ([] ∷ rounds) s t = delete_rounds-Gone later k rounds s t
  delete_rounds-Gone later k ((j ∷ keys) ∷ rounds) s t =
      elim (Option-cases (redis.del (j ∷ keys) s)) [
        | inl e ↦ rw (e, delete_rounds) (λ h gone. cc)
        | inr (u, e) ↦
            rw (e, delete_rounds)
              (λ h gone.
                delete_rounds-Gone later k rounds u t h
                  (del-Gone later k (j ∷ keys) s u e (inr gone)))
      ]

  -- The keys of the rounds are gone.
  delete_rounds-named :
      (later : ℕ) (k : Key) (rounds : List (List Key)) (s t : redis.State)
      → any (any (same_text k)) rounds ≡ true
      → delete_rounds redis rounds s ≡ ok t
      → Gone later k t
  unfolding delete_rounds any
  delete_rounds-named later k [] s t = λ named h. cc
  delete_rounds-named later k ([] ∷ rounds) s t = delete_rounds-named later k rounds s t
  delete_rounds-named later k ((j ∷ keys) ∷ rounds) s t = λ named.
      elim (Option-cases (redis.del (j ∷ keys) s)) [
        | inl e ↦ rw (e, delete_rounds) (λ h. cc)
        | inr (u, e) ↦
            rw (e, delete_rounds)
              (elim (Bool-cases (any (same_text k) (j ∷ keys))) [
                | inl here ↦ λ h.
                    delete_rounds-Gone later k rounds u t h
                      (del-Gone later k (j ∷ keys) s u e (inl here))
                | inr there ↦ delete_rounds-named later k rounds u t (
                    or_right (any (same_text k) (j ∷ keys)) (any (any (same_text k)) rounds) named
                      there)
              ])
      ]

  module _ (now later : ℕ) (order : now ≤ later)
      (complete : (p : Key) (s : redis.State) → (redis.scan now p s).1 ≡ true) where
    pattern-Gone :
        (p k : Key) (s t : redis.State)
        → delete_rounds redis (redis.scan now p s).0 s ≡ ok t
        → (starts_with p k ≡ true) ⊎ Gone later k s
        → Gone later k t
    pattern-Gone p k s t h (inr gone) = delete_rounds-Gone later k (redis.scan now p s).0 s t h gone
    pattern-Gone p k s t h (inl under) = elim (Option-cases (redis.holds later k s)) [
      | inl gone ↦ delete_rounds-Gone later k (redis.scan now p s).0 s t h gone
      | inr (v, e) ↦
          delete_rounds-named later k (redis.scan now p s).0 s t
            (redis.scan-complete now later p k s v (complete p s) order under e) h
    ]

    covered_none :
        (k : Key) (s t : redis.State)
        → invalidate_patterns redis now [] s ≡ ok t
        → (any (λ p. starts_with p k) [] ≡ true) ⊎ Gone later k s
        → Gone later k t
    unfolding invalidate_patterns any
    covered_none k s t h (inl nothing) = cc
    covered_none k s t h (inr gone) = cc

    patterns-Gone :
        (prefixes : List Key) (k : Key) (s t : redis.State)
        → invalidate_patterns redis now prefixes s ≡ ok t
        → (any (λ p. starts_with p k) prefixes ≡ true) ⊎ Gone later k s
        → Gone later k t
    unfolding invalidate_patterns any
    patterns-Gone [] k s t = λ h given. covered_none k s t h given
    patterns-Gone (p ∷ prefixes) k s t =
        elim (Result-cases (delete_rounds redis (redis.scan now p s).0 s)) [
          | inl (e, r) ↦ rw (r, invalidate_patterns) (λ h. cc)
          | inr (u, r) ↦
              rw (r, invalidate_patterns)
                (λ h given. patterns-Gone prefixes k u t h (elim (Bool-cases (starts_with p k)) [
                  | inl under ↦ inr (pattern-Gone p k s u r (inl under))
                  | inr other ↦ elim given [
                    | inl named ↦ inl (
                        or_right (starts_with p k) (any (λ p. starts_with p k) prefixes) named
                          other)
                    | inr gone ↦ inr (pattern-Gone p k s u r (inr gone))
                  ]
                ]))
        ]

    all-Gone :
        (k : Key) (s t : redis.State)
        → invalidate_all redis now s ≡ ok t
        → Covered k
        → Gone later k t
    unfolding invalidate_all
    all-Gone k s t h under = patterns-Gone patterns k s t h (inl under)

read-none :
    {A : Type 0} (json : Json A) (answer : Option (Option String)) (v : A)
    → (answer ≡ none) ⊎ (answer ≡ some none)
    → read json answer ≢ ok (some v)
unfolding read
read-none json answer v (inl e) = rw e (λ h. cc)
read-none json answer v (inr e) = rw e (λ h. cc)

module _ (redis : Redis) (now : ℕ)
    (deletes : (keys : List Key) (s : redis.State) → redis.del keys s ≢ none) where
  delete_rounds_done :
      (rounds : List (List Key)) (s : redis.State)
      → (t : redis.State) × (delete_rounds redis rounds s ≡ ok t)
  unfolding delete_rounds
  delete_rounds_done [] s = (s, refl)
  delete_rounds_done ([] ∷ rounds) s = delete_rounds_done rounds s
  delete_rounds_done ((k ∷ keys) ∷ rounds) s = elim (Option-cases (redis.del (k ∷ keys) s)) [
    | inl e ↦ absurd (deletes (k ∷ keys) s e)
    | inr (u, e) ↦ rw (e, delete_rounds) (delete_rounds_done rounds u)
  ]

  patterns_done :
      (prefixes : List Key) (s : redis.State)
      → (t : redis.State) × (invalidate_patterns redis now prefixes s ≡ ok t)
  unfolding invalidate_patterns
  patterns_done [] s = (s, refl)
  patterns_done (p ∷ prefixes) s =
      let (u, e) = delete_rounds_done (redis.scan now p s).0 s in
      rw (e, invalidate_patterns) (patterns_done prefixes u)

-- Nothing is read from a key where nothing stands.
not_read :
    (redis : Redis) {A : Type 0} (json : Json A) (later : ℕ) (k : Key) (s : redis.State) (v : A)
    → redis.holds later k s ≡ none
    → read json (redis.get later k s) ≢ ok (some v)
not_read redis json later k s v gone = elim (Option-cases (redis.get later k s)) [
  | inl e ↦ read-none json (redis.get later k s) v (inl e)
  | inr (o, e) ↦
      read-none json (redis.get later k s) v
        (inr (e ∙ ap some (redis.get-holds later k s o e ∙ gone)))
]

-- Where no SCAN and no DEL fails, `invalidate_all` succeeds, and from then on no cached value is read:
-- no ranks, no communities, no subgraph of any center and depth, and no statistics, until another is
-- cached.
pub invalidate_all-cold :
    (redis : Redis) {A : Type 0} (json : Json A) (now later : ℕ) (s : redis.State) (v : A)
    (center : List ℕ) (hops : ℕ)
    → ((p : Key) (u : redis.State) → (redis.scan now p u).1 ≡ true)
    → ((keys : List Key) (u : redis.State) → redis.del keys u ≢ none)
    → now ≤ later
    → (t : redis.State) × (invalidate_all redis now s ≡ ok t)
      × (get_pagerank redis json later t ≢ ok (some v))
      × (get_communities redis json later t ≢ ok (some v))
      × (get_subgraph redis json later center hops t ≢ ok (some v))
      × (get_stats redis json later t ≢ ok (some v))
unfolding invalidate_all get_pagerank get_communities get_subgraph get_stats starts_with any
invalidate_all-cold redis json now later s v center hops complete deletes order =
    let (t, e) = patterns_done redis now deletes patterns s in
    let cold = λ (k : Key) (under : Covered k).
      not_read redis json later k t v (all-Gone redis now later order complete k s t e under) in
    (
      t,
      e,
      cold (all_key prefix_pagerank) refl,
      cold (all_key prefix_community) refl,
      cold (subgraph_key center hops) refl,
      cold stats_key refl,
    )
