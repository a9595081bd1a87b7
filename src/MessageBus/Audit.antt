-- ===== src/MessageBus/Audit.antt =====
-- What the audit buffer of the bus holds.
use angavu_intelligence_back.Common.{
  ℕ, suc, ◌+◌, ◌*◌, ◌/◌, ◌<◌, ◌≡◌, ◌∙◌, refl, sym, ap, ap₂, Bool, true, false, Option, some, List,
  [], ◌∷◌, ◌++◌, length, length-append, drop, leb, leb→le, inl, inr, Bool-cases, Option-cases,
  arith,
}
use mathlib.Core.List.{append_assoc, append-nil}
use angavu_intelligence_back.MessageBus.{ModuleId, ModuleMessage, extract_priority}
use angavu_intelligence_back.MessageBus.Bus.{
  deliver, at_least_high, Mpsc, ModuleMessageBus, AuditEntry, TrySend, sent, full, closed, entry_of,
  push_entry, audit_log, audited, queue_of, set_queue, after_wait, on_full, after_try,
  send_to_module, flush_audit,
}

push_all : List AuditEntry → List AuditEntry → List AuditEntry
push_all buffer [] = buffer
push_all buffer (e ∷ es) = push_all (push_entry e buffer) es

drop_past {ℓ} : {A : Type ℓ} (xs ys : List A) (n : ℕ) → drop (length xs + n) (xs ++ ys) ≡ drop n ys
unfolding drop
drop_past [] ys n = ap (λ k. drop k ys) (omega arith)
drop_past (x ∷ xs) ys n =
    let e : suc (length xs) + n ≡ suc (length xs + n) = omega arith in rw e (drop_past xs ys n)

-- The buffer starts anew after each 512 entries.
push_all-drop :
    (buffer es : List AuditEntry)
    → length buffer < 512
    → push_all buffer es ≡ drop (512 * (length (buffer ++ es) / 512)) (buffer ++ es)
unfolding push_all push_entry drop
push_all-drop buffer [] h =
    let n : 512 * (length (buffer ++ []) / 512) ≡ 0 = omega (arith, length-append buffer []) in
    rw n (sym (append-nil buffer))
push_all-drop buffer (e ∷ es) h =
    let long : length (buffer ++ e ∷ []) ≡ suc (length buffer) =
      omega (arith, length-append buffer (e ∷ [])) in
    let same : (buffer ++ e ∷ []) ++ es ≡ buffer ++ e ∷ es = append_assoc buffer (e ∷ []) es in
    elim (Bool-cases (leb 512 (length (buffer ++ e ∷ [])))) [
      | inl emptied ↦
          let total = length (buffer ++ e ∷ es) in
          let split : 512 * (total / 512) ≡ length (buffer ++ e ∷ []) + 512 * (length es / 512) =
            omega (arith, long, leb→le _ _ emptied, length-append buffer (e ∷ es)) in
          rw emptied (
            push_all-drop [] es (omega arith)
            ∙ (sym (drop_past (buffer ++ e ∷ []) es (512 * (length es / 512)))
                ∙ ap₂ drop (sym split) same))
      | inr kept ↦ rw kept (
          push_all-drop (buffer ++ e ∷ []) es (ground arith)
          ∙ ap (λ all. drop (512 * (length all / 512)) all) same)
    ]

-- The calls of `send_to_module` of a series, with their times.
module _ {A : Type 0} (mpsc : Mpsc (ModuleMessage A)) (size : ModuleMessage A → Option ℕ) where
  unfoldable pub send_all :
      List (ℕ × ModuleId × ModuleMessage A)
      → ModuleMessageBus mpsc size
      → ModuleMessageBus mpsc size
  send_all [] b = b
  send_all ((now, target, m) ∷ sends) b = send_all sends (send_to_module mpsc size now target m b).1

  abbrev pub entries : List (ℕ × ModuleId × ModuleMessage A) → List AuditEntry
  entries [] = []
  entries ((now, target, m) ∷ sends) = entry_of mpsc size now m (some target) ∷ entries sends

  -- What becomes of a message does not touch the buffer or the settings.
  abbrev Untouched : ModuleMessageBus mpsc size → ModuleMessageBus mpsc size → Type 0
  Untouched b c = (c.audit_buffer ≡ b.audit_buffer) × (c.config ≡ b.config)

  after_wait-Untouched :
      (target : ModuleId) (waited : Bool × mpsc.Queue) (b : ModuleMessageBus mpsc size)
      → Untouched b (after_wait mpsc size target waited b).1
  unfolding after_wait
  after_wait-Untouched target (true, q) b = (refl, refl)
  after_wait-Untouched target (false, q) b = (refl, refl)

  on_full-Untouched :
      (target : ModuleId) (m : ModuleMessage A) (q : mpsc.Queue) (b : ModuleMessageBus mpsc size)
      → Untouched b (on_full mpsc size target m q b).1
  unfolding on_full
  on_full-Untouched target m q b = elim (Bool-cases (at_least_high (extract_priority m))) [
    | inl e ↦ rw e (after_wait-Untouched target (mpsc.send m q) b)
    | inr e ↦ rw e (refl, refl)
  ]

  after_try-Untouched :
      (target : ModuleId) (m : ModuleMessage A) (tried : TrySend × mpsc.Queue)
      (b : ModuleMessageBus mpsc size)
      → Untouched b (after_try mpsc size target m tried b).1
  unfolding after_try
  after_try-Untouched target m (sent, q) b = (refl, refl)
  after_try-Untouched target m (full, q) b =
      on_full-Untouched target m q
        (record b { module_queues = set_queue mpsc size target q b.module_queues })
  after_try-Untouched target m (closed, q) b = (refl, refl)

  deliver-Untouched :
      (target : ModuleId) (m : ModuleMessage A) (b : ModuleMessageBus mpsc size)
      → Untouched b (deliver mpsc size target m b).1
  unfolding deliver
  deliver-Untouched target m b = elim (Option-cases (queue_of mpsc size target b.module_queues)) [
    | inl gone ↦ rw (gone, deliver) (refl, refl)
    | inr (q, e) ↦ rw (e, deliver) (after_try-Untouched target m (mpsc.try_send m q) b)
  ]

  -- One call leaves one entry, whatever becomes of the message.
  send_to_module-audit :
      (now : ℕ) (target : ModuleId) (m : ModuleMessage A) (b : ModuleMessageBus mpsc size)
      → b.config.audit_enabled ≡ true
      → ((send_to_module mpsc size now target m b).1.audit_buffer
          ≡ push_entry (entry_of mpsc size now m (some target)) b.audit_buffer)
        × ((send_to_module mpsc size now target m b).1.config ≡ b.config)
  unfolding send_to_module audited audit_log
  send_to_module-audit now target m b on =
      let u = deliver-Untouched target m (audited mpsc size now m (some target) b) in
      (u.0 ∙ (rw on refl), u.1 ∙ (rw on refl))

  send_all-push_all :
      (sends : List (ℕ × ModuleId × ModuleMessage A)) (b : ModuleMessageBus mpsc size)
      → b.config.audit_enabled ≡ true
      → (send_all sends b).audit_buffer ≡ push_all b.audit_buffer (entries sends)
  unfolding send_all push_all
  send_all-push_all [] b on = refl
  send_all-push_all ((now, target, m) ∷ sends) b on =
      let (one, same) = send_to_module-audit now target m b on in
      send_all-push_all sends (send_to_module mpsc size now target m b).1
        (ap (λ c. c.audit_enabled) same ∙ on)
      ∙ ap (λ l. push_all l (entries sends)) one

  -- Where the audit is enabled, and the buffer is empty before: after any series of messages to modules a
  -- flush returns the entries since the last multiple of 512 of them, in their order. The entries before
  -- that are in no result.
  pub flush_audit-send_all :
      (sends : List (ℕ × ModuleId × ModuleMessage A)) (b : ModuleMessageBus mpsc size)
      → b.config.audit_enabled ≡ true
      → b.audit_buffer ≡ []
      → (flush_audit mpsc size (send_all sends b)).0
        ≡ drop (512 * (length (entries sends) / 512)) (entries sends)
  unfolding flush_audit
  flush_audit-send_all sends b on empty =
      send_all-push_all sends b on
      ∙ (ap (λ l. push_all l (entries sends)) empty
          ∙ push_all-drop [] (entries sends) (omega arith))
