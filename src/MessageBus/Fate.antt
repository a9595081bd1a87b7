-- ===== src/MessageBus/Fate.antt =====
-- What becomes of a message to a module.
use angavu_intelligence_back.Common.{
  ℕ, ◌≡◌, ◌≢◌, ◌∙◌, refl, sym, ap, Bool, true, false, Option, some, none, List, [], ◌∷◌, ◌++◌,
  Result, ok, Bool-cases, Option-cases, inl, inr, arith,
}
use angavu_intelligence_back.MessageBus.{ModuleId, ModuleMessage, extract_priority}
use angavu_intelligence_back.MessageBus.Bus.{
  Mpsc, ModuleMessageBus, BusError, TrySend, sent, full, closed, fetch_add, at_least_high, queue_of,
  set_queue, audited, audit_log, after_wait, on_full, after_try, deliver, send_to_module,
}

module _ {A : Type 0} (mpsc : Mpsc (ModuleMessage A)) (size : ModuleMessage A → Option ℕ) where
  open mpsc use {Queue, try_send, send, accepted}

  -- The messages that the queue of a module was ever given.
  abbrev pub accepted_in : Option Queue → List (ModuleMessage A)
  accepted_in none = []
  accepted_in (some q) = accepted q

  abbrev pub accepted_by : ModuleId → ModuleMessageBus mpsc size → List (ModuleMessage A)
  accepted_by id b = accepted_in (queue_of mpsc size id b.module_queues)

  -- The result and the state after a call, from the state before it.
  pub data Fate (target : ModuleId) (m : ModuleMessage A) (b : ModuleMessageBus mpsc size)
      (r : Result BusError (Unit {0}) × ModuleMessageBus mpsc size) : Type 0 where
    kept :
        r.0 ≡ ok tt
        → accepted_by target r.1 ≡ accepted_by target b ++ m ∷ []
        → r.1.messages_delivered ≡ fetch_add b.messages_delivered
        → r.1.messages_dropped ≡ b.messages_dropped
        → Fate target m b r
    dropped :
        r.0 ≡ ok tt
        → at_least_high (extract_priority m) ≡ false
        → accepted_by target r.1 ≡ accepted_by target b
        → r.1.messages_delivered ≡ b.messages_delivered
        → r.1.messages_dropped ≡ fetch_add b.messages_dropped
        → Fate target m b r
    refused :
        r.0 ≢ ok tt
        → accepted_by target r.1 ≡ accepted_by target b
        → r.1.messages_delivered ≡ b.messages_delivered
        → r.1.messages_dropped ≡ b.messages_dropped
        → Fate target m b r

  queue_of-set_queue :
      (id : ModuleId) (q : Queue) (qs : List (ModuleId × Queue))
      → queue_of mpsc size id (set_queue mpsc size id q qs) ≡ some q
  unfolding queue_of set_queue
  queue_of-set_queue id q [] = ground arith
  queue_of-set_queue id q ((j, p) ∷ qs) = ground (arith, queue_of-set_queue id q qs)

  accepted-set_queue :
      (id : ModuleId) (q : Queue) (b : ModuleMessageBus mpsc size)
      → accepted_by id (record b { module_queues = set_queue mpsc size id q b.module_queues })
        ≡ accepted q
  accepted-set_queue id q b = ap accepted_in (queue_of-set_queue id q b.module_queues)

  after_wait-Fate :
      (target : ModuleId) (m : ModuleMessage A) (q : Queue) (waited : Bool × Queue)
      (b : ModuleMessageBus mpsc size)
      → accepted_by target b ≡ accepted q
      → (waited.0 ≡ true → accepted waited.1 ≡ accepted q ++ m ∷ [])
      → (waited.0 ≡ false → accepted waited.1 ≡ accepted q)
      → Fate target m b (after_wait mpsc size target waited b)
  unfolding after_wait
  after_wait-Fate target m q (true, q') b at given gone =
      kept refl (accepted-set_queue target q' b ∙ (given refl ∙ ap (λ l. l ++ m ∷ []) (sym at)))
        refl refl
  after_wait-Fate target m q (false, q') b at given gone =
      refused (λ e. cc) (accepted-set_queue target q' b ∙ (gone refl ∙ sym at)) refl refl

  on_full-Fate :
      (target : ModuleId) (m : ModuleMessage A) (q : Queue) (b : ModuleMessageBus mpsc size)
      → accepted_by target b ≡ accepted q
      → Fate target m b (on_full mpsc size target m q b)
  unfolding on_full
  on_full-Fate target m q b at = elim (Bool-cases (at_least_high (extract_priority m))) [
    | inl e ↦
        rw e (after_wait-Fate target m q (send m q) b at (mpsc.send-true m q) (mpsc.send-false m q))
    | inr e ↦ rw e (dropped refl e refl refl refl)
  ]

  -- A fate from another state, of which the call sees the same.
  moved :
      (target : ModuleId) (m : ModuleMessage A) (b c : ModuleMessageBus mpsc size)
      (r : Result BusError (Unit {0}) × ModuleMessageBus mpsc size)
      → accepted_by target c ≡ accepted_by target b
      → c.messages_delivered ≡ b.messages_delivered
      → c.messages_dropped ≡ b.messages_dropped
      → Fate target m c r
      → Fate target m b r
  moved target m b c r same x y (kept a l d e) =
      kept a (l ∙ ap (λ q. q ++ m ∷ []) same) (d ∙ ap fetch_add x) (e ∙ y)
  moved target m b c r same x y (dropped a i l d e) =
      dropped a i (l ∙ same) (d ∙ x) (e ∙ ap fetch_add y)
  moved target m b c r same x y (refused a l d e) = refused a (l ∙ same) (d ∙ x) (e ∙ y)

  after_try-Fate :
      (target : ModuleId) (m : ModuleMessage A) (q : Queue) (tried : TrySend × Queue)
      (b : ModuleMessageBus mpsc size)
      → accepted_by target b ≡ accepted q
      → (tried.0 ≡ sent → accepted tried.1 ≡ accepted q ++ m ∷ [])
      → (tried.0 ≡ full → accepted tried.1 ≡ accepted q)
      → (tried.0 ≡ closed → accepted tried.1 ≡ accepted q)
      → Fate target m b (after_try mpsc size target m tried b)
  unfolding after_try
  after_try-Fate target m q (sent, q') b at given none_left gone =
      kept refl (accepted-set_queue target q' b ∙ (given refl ∙ ap (λ l. l ++ m ∷ []) (sym at)))
        refl refl
  after_try-Fate target m q (full, q') b at given none_left gone =
      let c = record b { module_queues = set_queue mpsc size target q' b.module_queues } in
      moved target m b c (on_full mpsc size target m q' c)
        (accepted-set_queue target q' b ∙ (none_left refl ∙ sym at)) refl refl
        (on_full-Fate target m q' c (accepted-set_queue target q' b))
  after_try-Fate target m q (closed, q') b at given none_left gone =
      refused (λ e. cc) (accepted-set_queue target q' b ∙ (gone refl ∙ sym at)) refl refl

  deliver-Fate :
      (target : ModuleId) (m : ModuleMessage A) (b : ModuleMessageBus mpsc size)
      → Fate target m b (deliver mpsc size target m b)
  unfolding deliver
  deliver-Fate target m b = elim (Option-cases (queue_of mpsc size target b.module_queues)) [
    | inl gone ↦ rw (gone, deliver) (refused (λ e. cc) refl refl refl)
    | inr (q, e) ↦
        rw (e, deliver)
          (after_try-Fate target m q (try_send m q) b (ap accepted_in e) (mpsc.try_send-sent m q)
            (mpsc.try_send-full m q) (mpsc.try_send-closed m q))
  ]

  audited-same :
      (now : ℕ) (target : ModuleId) (m : ModuleMessage A) (b : ModuleMessageBus mpsc size)
      → let c = audited mpsc size now m (some target) b in
        (accepted_by target c ≡ accepted_by target b)
        × (c.messages_delivered ≡ b.messages_delivered)
        × (c.messages_dropped ≡ b.messages_dropped)
  unfolding audited audit_log
  audited-same now target m b = elim (Bool-cases b.config.audit_enabled) [
    | inl e ↦ rw e (refl, refl, refl)
    | inr e ↦ rw e (refl, refl, refl)
  ]

  -- A message to a module is, on any bus, one of three things: accepted by the module's queue, and
  -- counted as delivered; dropped, and counted as dropped, which happens to messages below high priority
  -- only; or refused with an error and not counted. Where it is not accepted, the queue is given nothing.
  pub send_to_module-Fate :
      (now : ℕ) (target : ModuleId) (m : ModuleMessage A) (b : ModuleMessageBus mpsc size)
      → Fate target m b (send_to_module mpsc size now target m b)
  unfolding send_to_module
  send_to_module-Fate now target m b =
      let c = audited mpsc size now m (some target) b in
      let (same, x, y) = audited-same now target m b in
      moved target m b c (deliver mpsc size target m c) same x y (deliver-Fate target m c)
