-- ===== src/KAnonymity.antt =====
-- rust-api/src/gateway/k_anonymity.rs: `KAnonymityEnforcer`, its decisions and its audit log.
-- The maps and the log behind locks are fields of one record, and each method is one step. The
-- formatted reason is kept as the two numbers in it. `usize` is 64 bits; `self.k as u32` keeps the
-- low 32 bits.
use angavu_intelligence_back.Common.{
  ℕ, ◌+◌, ◌-◌, ◌%◌, ◌^◌, max, Bool, true, false, not, Option, none, some, List, [], ◌∷◌, ◌++◌,
  String, str_eq, length, drop, trim, leb, retain, if◌then◌else◌,
}
pub mod Release
pub mod Cohorts
pub mod Merge
pub mod Conserve
mod Tests

abbrev pub min_k_anonymity : ℕ
min_k_anonymity = 10

pub data Reason : Type 0 where
  below_threshold : ℕ → ℕ → Reason

pub record KAnonymityAuditRecord : Type 0 where
  pub timestamp : ℕ
  pub cohort_key : String
  pub sample_size : ℕ  -- u32
  pub threshold : ℕ
  pub allowed : Bool
  pub endpoint : String
  pub reason : Option Reason

pub record KAnonymityEnforcer : Type 0 where
  pub k : ℕ
  pub cohort_sizes : List (String × ℕ)
  pub audit_log : List KAnonymityAuditRecord

pub record KAnonymityResult {ℓ} (T : Type ℓ) : Type ℓ where
  pub released : Option T  -- the field `data`
  pub k_anonymity : ℕ
  pub suppressed : Bool
  pub reason : Option Reason

unfoldable pub new : ℕ → KAnonymityEnforcer
new k = record { k = max k min_k_anonymity; cohort_sizes = []; audit_log = [] }

unfoldable pub standard : KAnonymityEnforcer
unfolding new
standard = new min_k_anonymity

insert : String → ℕ → List (String × ℕ) → List (String × ℕ)
insert key n [] = (key, n) ∷ []
insert key n ((j, m) ∷ sizes) =
    if str_eq j key then (key, n) ∷ sizes else (j, m) ∷ insert key n sizes

-- `if log.len() >= 1000 { log.drain(0..500); }`
abbrev pub make_room : List KAnonymityAuditRecord → List KAnonymityAuditRecord
make_room = trim 1000 500

unfoldable pub log_decision :
    ℕ → String → ℕ → String → Bool → Option Reason → KAnonymityEnforcer → KAnonymityEnforcer
log_decision now cohort_key sample_size endpoint allowed reason enforcer =
    let entry : KAnonymityAuditRecord = record {
      timestamp = now;
      cohort_key = cohort_key;
      sample_size = sample_size;
      threshold = enforcer.k;
      allowed = allowed;
      endpoint = endpoint;
      reason = reason;
    } in
    record enforcer { audit_log = make_room enforcer.audit_log ++ entry ∷ [] }

module _ {ℓ} {T : Type ℓ} where
  unfoldable pub enforce_with_audit :
      ℕ → String → T → ℕ → String → KAnonymityEnforcer → KAnonymityEnforcer × KAnonymityResult T
  unfolding log_decision insert
  enforce_with_audit now cohort_key value sample_size endpoint enforcer =
      let allowed = leb (enforcer.k % 2 ^ 32) sample_size in
      let reason : Option Reason =
        if allowed then none else some (below_threshold sample_size enforcer.k) in
      let e = log_decision now cohort_key sample_size endpoint allowed reason enforcer in
      let released : KAnonymityResult T = record {
        released = some value;
        k_anonymity = enforcer.k;
        suppressed = false;
        reason = none;
      } in
      let withheld : KAnonymityResult T = record {
        released = none;
        k_anonymity = enforcer.k;
        suppressed = true;
        reason = reason;
      } in
      if allowed
      then (record e { cohort_sizes = insert cohort_key sample_size e.cohort_sizes }, released)
      else (e, withheld)

  unfoldable pub enforce :
      ℕ → String → T → ℕ → KAnonymityEnforcer → KAnonymityEnforcer × KAnonymityResult T
  unfolding enforce_with_audit
  enforce now cohort_key value sample_size =
      enforce_with_audit now cohort_key value sample_size "unknown"

  -- The elements are handled in order, each at its own time.
  unfoldable pub enforce_batch_with_audit :
      String
      → List (ℕ × String × T × ℕ)
      → KAnonymityEnforcer
      → KAnonymityEnforcer × List (KAnonymityResult T)
  enforce_batch_with_audit endpoint [] enforcer = (enforcer, [])
  enforce_batch_with_audit endpoint ((now, key, value, size) ∷ results) enforcer =
      let (e, r) = enforce_with_audit now key value size endpoint enforcer in
      let (e', rs) = enforce_batch_with_audit endpoint results e in (e', r ∷ rs)

  unfoldable pub enforce_batch :
      List (ℕ × String × T × ℕ)
      → KAnonymityEnforcer
      → KAnonymityEnforcer × List (KAnonymityResult T)
  unfolding enforce_batch_with_audit
  enforce_batch = enforce_batch_with_audit "batch"

unfoldable pub recent_audit : ℕ → KAnonymityEnforcer → List KAnonymityAuditRecord
recent_audit limit enforcer = drop (length enforcer.audit_log - limit) enforcer.audit_log

unfoldable pub violation_count : KAnonymityEnforcer → ℕ
violation_count enforcer = length (retain (λ r. not r.allowed) enforcer.audit_log)
