-- ===== src/PrivacyBudget/Tests.antt =====
-- Examples for the privacy budgets: a budget of 1000 units for 24 hours, in floats that keep two digits.
use angavu_intelligence_back.Common.{
  ℕ, ◌+◌, ◌-◌, ◌*◌, ◌%◌, max, ltb, leb, ◌==◌, if◌then◌else◌, ◌≡◌, refl, true, false, none, some,
  List, [], ◌∷◌, map, arith,
}
use angavu_intelligence_back.PrivacyBudget.{
  F64, QueryType, credit_score, general, index, QueryRecord, QueryTypeBudget, PrivacyBudgetTracker,
  find, insert, entry, new, maybe_reset, compose_rdp, can_afford, bounded, record_query,
  check_and_record, with_config, status, budget_status, reset_all,
}
use angavu_intelligence_back.PrivacyBudget.Ledger.{IsValid}
use angavu_intelligence_back.PrivacyBudget.History.{
  Query, run_queries, plus, spent, run_queries-IsValid, spent-le,
}

-- A sum is rounded down: of a large one, the last digit is lost.
abbrev rounded : ℕ → ℕ
rounded n = if ltb n 100 then n else n - n % 10

abbrev floats : F64
floats = record {
  Float = ℕ;
  zero = 0;
  add = λ a b. rounded (a + b);
  sub = λ a b. a - b;
  max = max;
  le = leb;
  same = ◌==◌;
}

abbrev day : ℕ
day = 24 * 3600000000

abbrev fresh : QueryTypeBudget floats
fresh = record {
  query_type = general;
  budget_epsilon = 1000;
  consumed_epsilon_rdp = 0;
  query_count = 0;
  window_start = 0;
  window_end = day;
  recent_queries = [];
}

abbrev tracker : PrivacyBudgetTracker floats
tracker = record { budgets = (general, fresh) ∷ []; default_epsilon = 1000; window_duration = day }

abbrev query : ℕ → ℕ → QueryType → Query floats
query now cost q = record {
  now = now;
  query_type = q;
  rdp = record { alpha = 2; epsilon_rdp = cost };
  endpoint = "/test";
  cohort_key = none;
}

-- The third query does not fit, the fourth does.
abbrev queries : List (Query floats)
queries =
    query 1 400 general ∷ query 2 900 credit_score ∷ query 3 700 general ∷ query 4 600 general ∷ []

configured : with_config floats 1000 24 ≡ record tracker { budgets = [] }
unfolding with_config
configured = refl

spent-queries : spent floats general queries tracker 0 ≡ 1000
unfolding spent check_and_record entry find insert index maybe_reset can_afford compose_rdp
    record_query bounded new
spent-queries = refl

-- Nine more are lost to the rounding, as often as they are asked for.
absorbed : plus floats 1000 9 ≡ 1000
absorbed = refl

cleared : (reset_all floats tracker).budgets ≡ []
unfolding reset_all
cleared = refl

shown : map (λ b. b.window_active) (status floats day tracker) ≡ false ∷ []
unfolding status budget_status
shown = refl

held : find general tracker.budgets ≡ some fresh
unfolding find index
held = refl

abbrev empty : PrivacyBudgetTracker floats
empty = record tracker { budgets = [] }

empty-IsValid :
    (j : QueryType) (b : QueryTypeBudget floats) → find j empty.budgets ≡ some b → IsValid floats b
unfolding find
empty-IsValid j b h = absurd (ground (arith, h))

abbrev remembered : ℕ → ℕ → QueryRecord floats
remembered now cost = record {
  query_type = general;
  rdp = record { alpha = 2; epsilon_rdp = cost };
  timestamp = now;
  endpoint = "/test";
  cohort_key = none;
}

abbrev used_up : QueryTypeBudget floats
used_up = record fresh {
  consumed_epsilon_rdp = 1000;
  query_count = 2;
  window_start = 1;
  window_end = 1 + day;
  recent_queries = remembered 1 400 ∷ remembered 4 600 ∷ [];
}

left : find general (run_queries floats queries empty).budgets ≡ some used_up
unfolding run_queries check_and_record entry find insert index maybe_reset can_afford compose_rdp
    record_query bounded new
left = refl

run_queries-IsValid_example : IsValid floats used_up
run_queries-IsValid_example =
    run_queries-IsValid floats queries empty refl empty-IsValid general used_up left

spent-le_example :
    (after : QueryTypeBudget floats) × (find general (run_queries floats queries tracker).budgets
      ≡ some after)
    × (after.consumed_epsilon_rdp ≡ spent floats general queries tracker 0)
    × (after.budget_epsilon ≡ 1000)
    × (leb (spent floats general queries tracker 0) 1000 ≡ true)
spent-le_example =
    spent-le floats general queries tracker fresh held refl
      (omega arith, (omega arith, (omega arith, (omega arith, tt))))
