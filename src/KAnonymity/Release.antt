-- ===== src/KAnonymity/Release.antt =====
-- What an enforcer releases, and what its audit log keeps.
use angavu_intelligence_back.Common.{
  ℕ, ◌%◌, ◌^◌, ◌≤◌, ◌<◌, ◌≡◌, refl, max, Bool, true, false, not, Option, none, some, List, [], ◌∷◌,
  ◌++◌, String, length, length-append, length-trim, drop-concat, leb, if◌then◌else◌, arith,
}
use angavu_intelligence_back.KAnonymity.{
  KAnonymityEnforcer, KAnonymityResult, KAnonymityAuditRecord, Reason, below_threshold, new,
  log_decision, enforce_with_audit, enforce_batch_with_audit, recent_audit, make_room,
  min_k_anonymity,
}

pub record IsValid (e : KAnonymityEnforcer) : Type 0 where
  pub floor : min_k_anonymity ≤ e.k
  pub bounded : length e.audit_log ≤ 1000

pub new-IsValid : (k : ℕ) → IsValid (new k)
unfolding new
new-IsValid k = omega arith

-- The decision that the documentation promises: release at k individuals or more.
abbrev verdict {ℓ} : {T : Type ℓ} → ℕ → T → ℕ → KAnonymityResult T
verdict k value size =
    if leb k size
    then record { released = some value; k_anonymity = k; suppressed = false; reason = none }
    else record {
      released = none;
      k_anonymity = k;
      suppressed = true;
      reason = some (below_threshold size k);
    }

abbrev pub verdicts {ℓ} : {T : Type ℓ} → ℕ → List (ℕ × String × T × ℕ) → List (KAnonymityResult T)
verdicts k [] = []
verdicts k ((_, _, value, size) ∷ rs) = verdict k value size ∷ verdicts k rs

log_decision-IsValid :
    (now : ℕ) (key : String) (size : ℕ) (endpoint : String) (allowed : Bool)
    (reason : Option Reason) (e : KAnonymityEnforcer)
    → IsValid e
    → IsValid (log_decision now key size endpoint allowed reason e)
unfolding log_decision
log_decision-IsValid now key size endpoint allowed reason e h = record {
  floor = h.floor;
  bounded = omega (
    arith,
    length-append {0},
    length-trim 1000 500 e.audit_log (omega arith) (omega arith) h.bounded,
  );
}

module _ {ℓ} {T : Type ℓ} where
  enforce-IsValid :
      (now : ℕ) (key : String) (value : T) (size : ℕ) (endpoint : String) (e : KAnonymityEnforcer)
      → IsValid e
      → IsValid (enforce_with_audit now key value size endpoint e).0
  unfolding enforce_with_audit
  enforce-IsValid now key value size endpoint e h = ground (
    arith,
    log_decision-IsValid now key size endpoint true none e h,
    log_decision-IsValid now key size endpoint false (some (below_threshold size e.k)) e h,
  )

  enforce-verdict :
      (now : ℕ) (key : String) (value : T) (size : ℕ) (endpoint : String) (e : KAnonymityEnforcer)
      → e.k < 2 ^ 32
      → let (e', r) = enforce_with_audit now key value size endpoint e in
        (r ≡ verdict e.k value size) × (e'.k ≡ e.k)
  unfolding enforce_with_audit
  enforce-verdict now key value size endpoint e h = ground arith

  -- A batch answers each element by its own cohort size, for an enforcer with a threshold below
  -- 2^32: the value at k individuals or more, and otherwise the reason and no value.
  pub enforce_batch-verdicts :
      (endpoint : String) (rs : List (ℕ × String × T × ℕ)) (e : KAnonymityEnforcer)
      → e.k < 2 ^ 32
      → (enforce_batch_with_audit endpoint rs e).1 ≡ verdicts e.k rs
  unfolding enforce_batch_with_audit
  enforce_batch-verdicts endpoint [] e h = refl
  enforce_batch-verdicts endpoint ((now, key, value, size) ∷ rs) e h =
      let e' = (enforce_with_audit now key value size endpoint e).0 in
      ground (
        arith,
        enforce-verdict now key value size endpoint e h,
        enforce_batch-verdicts endpoint rs e',
      )

  -- Whatever the batch, a valid enforcer stays valid: the threshold is never below 10, and the audit
  -- log never holds more than 1000 entries.
  pub enforce_batch-IsValid :
      (endpoint : String) (rs : List (ℕ × String × T × ℕ)) (e : KAnonymityEnforcer)
      → IsValid e
      → IsValid (enforce_batch_with_audit endpoint rs e).0
  unfolding enforce_batch_with_audit
  enforce_batch-IsValid endpoint [] e h = h
  enforce_batch-IsValid endpoint ((now, key, value, size) ∷ rs) e h =
      enforce_batch-IsValid endpoint rs (enforce_with_audit now key value size endpoint e).0
        (enforce-IsValid now key value size endpoint e h)

  -- With a threshold below 2^32, a value that an enforcer built by `new` releases stands for at
  -- least 10 individuals and at least as many as were asked for, and it is the value handed in.
  pub enforce-floor :
      (k now : ℕ) (key : String) (value v : T) (size : ℕ) (endpoint : String)
      → max k min_k_anonymity < 2 ^ 32
      → (enforce_with_audit now key value size endpoint (new k)).1.released ≡ some v
      → (min_k_anonymity ≤ size) × (k ≤ size) × (v ≡ value)
  unfolding new
  enforce-floor k now key value v size endpoint h r =
      ground (arith, enforce-verdict now key value size endpoint (new k) h)

  -- The threshold is compared after a cast to 32 bits: where it is a multiple of 2^32, every value is
  -- released, whatever the size of its cohort.
  pub enforce-cast :
      (now : ℕ) (key : String) (value : T) (size : ℕ) (endpoint : String) (e : KAnonymityEnforcer)
      → e.k % 2 ^ 32 ≡ 0
      → (enforce_with_audit now key value size endpoint e).1.released ≡ some value
  unfolding enforce_with_audit
  enforce-cast now key value size endpoint e h = ground arith

  abbrev pub entry_of :
      ℕ → String → ℕ → String → KAnonymityEnforcer → KAnonymityResult T → KAnonymityAuditRecord
  entry_of now key size endpoint e r = record {
    timestamp = now;
    cohort_key = key;
    sample_size = size;
    threshold = e.k;
    allowed = not r.suppressed;
    endpoint = endpoint;
    reason = r.reason;
  }

  audit_log-enforce :
      (now : ℕ) (key : String) (value : T) (size : ℕ) (endpoint : String) (e : KAnonymityEnforcer)
      → let (e', r) = enforce_with_audit now key value size endpoint e in
        e'.audit_log ≡ make_room e.audit_log ++ entry_of now key size endpoint e r ∷ []
  unfolding enforce_with_audit
  audit_log-enforce now key value size endpoint e = ground arith

  -- The newest entry of the audit log is the decision just taken: it names the time, the cohort, its
  -- size, the threshold and the endpoint, is marked allowed exactly when the value was not
  -- suppressed, and has the reason of the answer.
  pub recent_audit-enforce :
      (now : ℕ) (key : String) (value : T) (size : ℕ) (endpoint : String) (e : KAnonymityEnforcer)
      → let (e', r) = enforce_with_audit now key value size endpoint e in
        recent_audit 1 e' ≡ entry_of now key size endpoint e r ∷ []
  unfolding recent_audit
  recent_audit-enforce now key value size endpoint e =
      rw (audit_log-enforce now key value size endpoint e) (drop-concat (make_room e.audit_log) _)
