-- ===== src/GraphCache/Tests.antt =====
-- A store in memory by which the laws of the Redis interface hold, and one whose SCAN fails.
use angavu_intelligence_back.Common.{
  ℕ, ◌+◌, ◌≤◌, ◌≡◌, ◌≢◌, refl, subst, true, false, not, Option, some, none, List, [], ◌∷◌, map,
  String, ok, err, any, same_text, retain, ltb, if◌then◌else◌, Bool-cases, inl, inr, arith, codes,
}
use angavu_intelligence_back.Invoice.Number.{starts_with, decimal, decimal_on}
use angavu_intelligence_back.Invoice.Numbering.{same_text-eq, same_text_refl}
use angavu_intelligence_back.GraphCache.{
  Key, Redis, Json, check_depth_limit, check_subgraph_limit, delete_rounds, invalidate_patterns,
  invalidate_all, put, parsed, read, cache_subgraph, get_subgraph, get_pagerank, get_communities,
  get_stats,
}
use angavu_intelligence_back.GraphCache.Cold.{invalidate_all-cold}

abbrev Entry : Type 0
Entry = Key × (ℕ × String)

abbrev Memory : Type 0
Memory = List Entry

abbrev live : ℕ → ℕ × String → Option String
live now e = if ltb now e.0 then some e.1 else none

lookup : ℕ → Key → Memory → Option String
lookup now k [] = none
lookup now k (e ∷ s) = let rest = lookup now k s in if same_text k e.0 then live now e.1 else rest

remove : List Key → Memory → Memory
remove keys = retain (λ (e : Entry). not (any (same_text e.0) keys))

lookup-remove :
    (now : ℕ) (k : Key) (keys : List Key) (s : Memory)
    → lookup now k (remove keys s) ≡ (if any (same_text k) keys then none else lookup now k s)
unfolding lookup remove retain
lookup-remove now k keys [] = ground arith
lookup-remove now k keys (e ∷ s) = elim (Bool-cases (same_text k e.0)) [
  | inl here ↦ elim (Bool-cases (any (same_text k) keys)) [
    | inl gone ↦
        rw
          (
            subst (λ j. any (same_text j) keys ≡ true) (same_text-eq k e.0 here) gone,
            lookup-remove now k keys s,
            gone,
          )
          refl
    | inr stays ↦
        rw
          (subst (λ j. any (same_text j) keys ≡ false) (same_text-eq k e.0 here) stays, here, stays)
          refl
  ]
  | inr there ↦ elim (Bool-cases (any (same_text e.0) keys)) [
    | inl gone ↦ rw (gone, there) (lookup-remove now k keys s)
    | inr stays ↦ rw (stays, there) (lookup-remove now k keys s)
  ]
]

keys_under : Key → Memory → List Key
keys_under prefix s = map (λ (e : Entry). e.0) (retain (λ (e : Entry). starts_with prefix e.0) s)

lookup-keys_under :
    (later : ℕ) (prefix k : Key) (s : Memory) (v : String)
    → starts_with prefix k ≡ true
    → lookup later k s ≡ some v
    → any (same_text k) (keys_under prefix s) ≡ true
unfolding lookup keys_under retain any
lookup-keys_under later prefix k [] v under = λ h. cc
lookup-keys_under later prefix k (e ∷ s) v under = elim (Bool-cases (same_text k e.0)) [
  | inl here ↦
      λ h. rw (subst (λ j. starts_with prefix j ≡ true) (same_text-eq k e.0 here) under, here) refl
  | inr there ↦ rw there (λ h. elim (Bool-cases (starts_with prefix e.0)) [
    | inl kept ↦ rw (kept, there) (lookup-keys_under later prefix k s v under h)
    | inr left ↦ rw left (lookup-keys_under later prefix k s v under h)
  ])
]

memory_scanned :
    (now later : ℕ) (prefix k : Key) (s : Memory) (v : String)
    → true ≡ true
    → now ≤ later
    → starts_with prefix k ≡ true
    → lookup later k s ≡ some v
    → any (any (same_text k)) (keys_under prefix s ∷ []) ≡ true
unfolding any
memory_scanned now later prefix k s v done order under h =
    rw (lookup-keys_under later prefix k s v under h) refl

memory_deleted :
    (later : ℕ) (k : Key) (keys : List Key) (s t : Memory)
    → some (remove keys s) ≡ some t
    → lookup later k t ≡ (if any (same_text k) keys then none else lookup later k s)
memory_deleted later k keys s t e =
    let same : remove keys s ≡ t = cc in
    subst (λ u. lookup later k u ≡ (if any (same_text k) keys then none else lookup later k s)) same
      (lookup-remove later k keys s)

memory_set :
    (now later ttl : ℕ) (k : Key) (v : String) (s t : Memory)
    → ◌≡◌ {A = Option Memory} (some ((k, (now + ttl, v)) ∷ s)) (some t)
    → now ≤ later
    → lookup later k t ≡ (if ltb later (now + ttl) then some v else none)
unfolding lookup
memory_set now later ttl k v s t e order =
    let same : ◌≡◌ {A = Memory} ((k, (now + ttl, v)) ∷ s) t = cc in
    subst (λ u. lookup later k u ≡ (if ltb later (now + ttl) then some v else none)) same
      (rw (same_text_refl k) refl)

memory_got :
    (now : ℕ) (k : Key) (s : Memory) (v : Option String)
    → some (lookup now k s) ≡ some v
    → v ≡ lookup now k s
memory_got now k s v e = cc

abbrev memory : Redis
memory = record {
  State = Memory;
  holds = lookup;
  get = λ now k s. some (lookup now k s);
  setex = λ now k ttl v s. some ((k, (now + ttl, v)) ∷ s);
  del = λ keys s. some (remove keys s);
  scan = λ now prefix s. (keys_under prefix s ∷ [], true);
  get-holds = memory_got;
  holds-setex = memory_set;
  holds-del = memory_deleted;
  scan-complete = memory_scanned;
}

-- Texts, each its own JSON.
abbrev texts : Json String
texts = record { to_string = some; from_str = some }

-- One subgraph cached at 10, and the store after that.
abbrev cached : Memory
cached = (codes "graph:sub:c:2", (310, "nodes")) ∷ []

subgraph_cached : cache_subgraph memory texts 10 (codes "c") 2 "nodes" [] ≡ ok cached
unfolding cache_subgraph put decimal decimal_on
subgraph_cached = refl

subgraph_read : get_subgraph memory texts 309 (codes "c") 2 cached ≡ ok (some "nodes")
unfolding get_subgraph read parsed decimal decimal_on lookup same_text
subgraph_read = refl

all_invalidated : invalidate_all memory 20 cached ≡ ok []
unfolding invalidate_all invalidate_patterns delete_rounds keys_under remove retain starts_with any
    same_text
all_invalidated = refl

too_deep : check_depth_limit 11 ≡ err (record { requested = 11; max = 10 })
unfolding check_depth_limit
too_deep = refl

at_most_all : check_subgraph_limit 1001 ≡ 1000
unfolding check_subgraph_limit
at_most_all = refl

invalidate_all-cold_example :
    (t : Memory) × (invalidate_all memory 20 cached ≡ ok t)
    × (get_pagerank memory texts 21 t ≢ ok (some "nodes"))
    × (get_communities memory texts 21 t ≢ ok (some "nodes"))
    × (get_subgraph memory texts 21 (codes "c") 2 t ≢ ok (some "nodes"))
    × (get_stats memory texts 21 t ≢ ok (some "nodes"))
invalidate_all-cold_example =
    invalidate_all-cold memory texts 20 21 cached "nodes" (codes "c") 2 (λ p u. refl)
      (λ keys u h. cc) (omega arith)

-- A store whose SCAN fails at once.
nothing_scanned :
    (now later : ℕ) (prefix k : Key) (s : Memory) (v : String)
    → false ≡ true
    → now ≤ later
    → starts_with prefix k ≡ true
    → lookup later k s ≡ some v
    → any (any (same_text k)) [] ≡ true
nothing_scanned now later prefix k s v e = cc

abbrev unreachable : Redis
unreachable = record {
  State = Memory;
  holds = lookup;
  get = λ now k s. some (lookup now k s);
  setex = λ now k ttl v s. some ((k, (now + ttl, v)) ∷ s);
  del = λ keys s. some (remove keys s);
  scan = λ now prefix s. ([], false);
  get-holds = memory_got;
  holds-setex = memory_set;
  holds-del = memory_deleted;
  scan-complete = nothing_scanned;
}

-- Its caches are reported to be invalidated, and are read as before.
nothing_invalidated : invalidate_all unreachable 20 cached ≡ ok cached
unfolding invalidate_all invalidate_patterns delete_rounds
nothing_invalidated = refl
