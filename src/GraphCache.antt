-- ===== src/GraphCache.antt =====
-- rust-api/src/graph/cache.rs: `GraphCache` and the limits of queries. Redis is the interface Redis, whose
-- commands can fail; serde_json is the interface Json. Times are seconds, keys are code points, and the
-- text of a Uuid is handed in.
use angavu_intelligence_back.Common.{
  ℕ, ◌+◌, ◌≤◌, ◌<◌, ◌≡◌, Bool, true, false, Option, some, none, List, [], ◌∷◌, ◌++◌, String, Result,
  ok, err, codes, any, same_text, ltb, min, if◌then◌else◌,
}
use angavu_intelligence_back.Invoice.Number.{decimal, starts_with}
pub mod Cold
mod Tests

abbrev pub Key : Type 0
Key = List ℕ

-- The failures of the operations.
pub data Error : Type 0 where
  redis_failed not_json : Error

-- The commands of Redis; none is a failure. `holds` is what stands under a key at a time. A SCAN is all its
-- rounds together: the keys of each round, and whether the rounds went through to the cursor 0 without
-- a failure, by which every key that stands there all the time and has the prefix is returned.
pub record Redis : Type 1 where
  pub State : Type 0
  pub holds : ℕ → Key → State → Option String
  pub get : ℕ → Key → State → Option (Option String)
  pub setex : ℕ → Key → ℕ → String → State → Option State
  pub del : List Key → State → Option State
  pub scan : ℕ → Key → State → List (List Key) × Bool
  pub get-holds :
      (now : ℕ) (k : Key) (s : State) (v : Option String) → get now k s ≡ some v → v ≡ holds now k s
  pub holds-setex :
      (now later ttl : ℕ) (k : Key) (v : String) (s t : State)
      → setex now k ttl v s ≡ some t
      → now ≤ later
      → holds later k t ≡ (if ltb later (now + ttl) then some v else none)
  pub holds-del :
      (later : ℕ) (k : Key) (keys : List Key) (s t : State)
      → del keys s ≡ some t
      → holds later k t ≡ (if any (same_text k) keys then none else holds later k s)
  pub scan-complete :
      (now later : ℕ) (prefix k : Key) (s : State) (v : String)
      → (scan now prefix s).1 ≡ true
      → now ≤ later
      → starts_with prefix k ≡ true
      → holds later k s ≡ some v
      → any (any (same_text k)) (scan now prefix s).0 ≡ true

-- `to_string` and `from_str` of serde_json at a type.
pub record Json (A : Type 0) : Type 0 where
  pub to_string : A → Option String
  pub from_str : String → Option A

abbrev pub prefix_pagerank : Key
prefix_pagerank = codes "graph:pr:"

abbrev pub prefix_community : Key
prefix_community = codes "graph:comm:"

abbrev pub prefix_subgraph : Key
prefix_subgraph = codes "graph:sub:"

abbrev pub prefix_stats : Key
prefix_stats = codes "graph:stats:"

-- The prefixes of the patterns of `invalidate_all`.
abbrev pub patterns : List Key
patterns = prefix_pagerank ∷ prefix_community ∷ prefix_subgraph ∷ prefix_stats ∷ []

abbrev pub max_traversal_depth : ℕ
max_traversal_depth = 10

abbrev pub max_subgraph_nodes : ℕ
max_subgraph_nodes = 1000

pub record DepthLimitError : Type 0 where
  pub requested : ℕ
  pub max : ℕ

unfoldable pub check_depth_limit : ℕ → Result DepthLimitError ℕ
check_depth_limit depth =
    if ltb max_traversal_depth depth
    then err (record { requested = depth; max = max_traversal_depth })
    else ok depth

unfoldable pub check_subgraph_limit : ℕ → ℕ
check_subgraph_limit node_count = min node_count max_subgraph_nodes

abbrev pub all_key : Key → Key
all_key prefix = prefix ++ codes "all"

abbrev pub subgraph_key : List ℕ → ℕ → Key
subgraph_key center hops = prefix_subgraph ++ (center ++ (codes ":" ++ decimal hops))

abbrev pub stats_key : Key
stats_key = prefix_stats ++ codes "global"

-- The value that `from_str` read.
unfoldable pub parsed {ℓ} : {A : Type ℓ} → Option A → Result Error (Option A)
parsed none = err not_json
parsed (some a) = ok (some a)

-- What GET answered, read.
unfoldable pub read : {A : Type 0} → Json A → Option (Option String) → Result Error (Option A)
unfolding parsed
read json none = err redis_failed
read json (some none) = ok none
read json (some (some data_text)) = parsed (json.from_str data_text)

module _ (redis : Redis) where
  abbrev pub done : Option redis.State → Result Error redis.State
  done none = err redis_failed
  done (some s) = ok s

  -- The text that was made, put under the key with SETEX.
  unfoldable pub put : ℕ → Key → ℕ → Option String → redis.State → Result Error redis.State
  put now key ttl none s = err not_json
  put now key ttl (some value) s = done (redis.setex now key ttl value s)

  unfoldable pub invalidate_pagerank : redis.State → Result Error redis.State
  invalidate_pagerank s = done (redis.del (all_key prefix_pagerank ∷ []) s)

  -- A DEL for every round of SCAN that returned keys.
  unfoldable pub delete_rounds : List (List Key) → redis.State → Result Error redis.State
  delete_rounds [] s = ok s
  delete_rounds ([] ∷ rounds) s = delete_rounds rounds s
  delete_rounds ((k ∷ keys) ∷ rounds) s = elim (redis.del (k ∷ keys) s) [
    | none ↦ err redis_failed
    | some t ↦ delete_rounds rounds t
  ]

  -- A SCAN that fails is read as its last round, without keys.
  unfoldable pub invalidate_patterns : ℕ → List Key → redis.State → Result Error redis.State
  unfolding delete_rounds
  invalidate_patterns now [] s = ok s
  invalidate_patterns now (p ∷ rest) s = elim (delete_rounds (redis.scan now p s).0 s) [
    | err e ↦ err e
    | ok t ↦ invalidate_patterns now rest t
  ]

  unfoldable pub invalidate_all : ℕ → redis.State → Result Error redis.State
  unfolding invalidate_patterns
  invalidate_all now = invalidate_patterns now patterns

  module _ {A : Type 0} (json : Json A) where
    unfoldable pub cache_pagerank : ℕ → A → redis.State → Result Error redis.State
    unfolding put
    cache_pagerank now results = put now (all_key prefix_pagerank) 3600 (json.to_string results)

    unfoldable pub get_pagerank : ℕ → redis.State → Result Error (Option A)
    unfolding read
    get_pagerank now s = read json (redis.get now (all_key prefix_pagerank) s)

    unfoldable pub cache_communities : ℕ → A → redis.State → Result Error redis.State
    unfolding put
    cache_communities now communities =
        put now (all_key prefix_community) 7200 (json.to_string communities)

    unfoldable pub get_communities : ℕ → redis.State → Result Error (Option A)
    unfolding read
    get_communities now s = read json (redis.get now (all_key prefix_community) s)

    unfoldable pub cache_subgraph : ℕ → List ℕ → ℕ → A → redis.State → Result Error redis.State
    unfolding put
    cache_subgraph now center hops data_value =
        put now (subgraph_key center hops) 300 (json.to_string data_value)

    unfoldable pub get_subgraph : ℕ → List ℕ → ℕ → redis.State → Result Error (Option A)
    unfolding read
    get_subgraph now center hops s = read json (redis.get now (subgraph_key center hops) s)

    unfoldable pub cache_stats : ℕ → A → redis.State → Result Error redis.State
    unfolding put
    cache_stats now stats = put now stats_key 600 (json.to_string stats)

    unfoldable pub get_stats : ℕ → redis.State → Result Error (Option A)
    unfolding read
    get_stats now s = read json (redis.get now stats_key s)
