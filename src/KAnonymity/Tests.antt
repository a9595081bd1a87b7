-- ===== src/KAnonymity/Tests.antt =====
-- Examples for the enforcer: a batch of two prices, and four small cohorts.
use angavu_intelligence_back.Common.{ℕ, ◌^◌, ◌≡◌, refl, some, List, [], ◌∷◌, String, arith}
use angavu_intelligence_back.KAnonymity
use angavu_intelligence_back.KAnonymity.{
  KAnonymityEnforcer, enforce_with_audit, enforce_batch_with_audit, recent_audit, min_k_anonymity,
}
use angavu_intelligence_back.KAnonymity.Release.{IsValid, verdicts, enforce_batch-verdicts}
use angavu_intelligence_back.KAnonymity.Cohorts.{Cohorts, get, merge_small_cohorts}
use angavu_intelligence_back.KAnonymity.Merge.{merge_small_cohorts-lost}
use angavu_intelligence_back.KAnonymity.Conserve.{
  Distinct, occurrences, merge_small_cohorts-occurrences,
}

abbrev enforcer : KAnonymityEnforcer
enforcer = record { k = 10; cohort_sizes = []; audit_log = [] }

enforcer-IsValid : IsValid enforcer
enforcer-IsValid = record { floor = omega arith; bounded = omega arith }

abbrev prices : List (ℕ × String × ℕ × ℕ)
prices = (1, "nairobi|maize", 4200, 25) ∷ (2, "kisumu|beans", 9100, 4) ∷ []

enforce_batch-verdicts_example :
    (enforce_batch_with_audit "/prices" prices enforcer).1 ≡ verdicts enforcer.k prices
enforce_batch-verdicts_example = enforce_batch-verdicts "/prices" prices enforcer (omega arith)

abbrev price : ℕ
price = 4200

released_price :
    (enforce_with_audit 1 "nairobi|maize" price 25 "/prices" (KAnonymity.new 5)).1.released
    ≡ some price
unfolding enforce_with_audit KAnonymity.new
released_price = refl

abbrev overflowing : KAnonymityEnforcer
overflowing = record { k = 2 ^ 32; cohort_sizes = []; audit_log = [] }

abbrev trio : KAnonymityEnforcer
trio = record { k = 3; cohort_sizes = []; audit_log = [] }

abbrev pairs : Cohorts
pairs = ("a|x", "p1" ∷ "p2" ∷ []) ∷ ("a|y", "p3" ∷ "p4" ∷ []) ∷ []

abbrev mixed : Cohorts
mixed = ("a|x", "p1" ∷ "p2" ∷ []) ∷ ("a|y", "p3" ∷ "p4" ∷ "p1" ∷ []) ∷ []

merge_small_cohorts-lost_example : merge_small_cohorts trio pairs ≡ []
merge_small_cohorts-lost_example =
    merge_small_cohorts-lost trio pairs (omega arith, (omega arith, tt))

mixed-Distinct : Distinct mixed
mixed-Distinct = ((refl, tt), (tt, tt))

large_cohort : get "a|y" mixed ≡ some ("p3" ∷ "p4" ∷ "p1" ∷ [])
unfolding get
large_cohort = refl

merge_small_cohorts-occurrences_example :
    occurrences "p1" (merge_small_cohorts trio mixed) ≡ occurrences "p1" mixed
merge_small_cohorts-occurrences_example =
    merge_small_cohorts-occurrences trio mixed "a|y" "p1" ("p3" ∷ "p4" ∷ "p1" ∷ []) mixed-Distinct
      large_cohort (omega arith)
