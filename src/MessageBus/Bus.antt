-- ===== src/MessageBus/Bus.antt =====
-- rust-api/src/orchestrator/message_bus.rs: `ModuleMessageBus`. The channels of tokio are parameters: the
-- queues of the modules are the interface Mpsc, and a publication is handed the number of broadcast
-- receivers. Times are handed in, and so is the size of a message. A rate is a fraction, and a
-- percentage a whole number, in place of f64. No call comes between the steps of another.
use angavu_intelligence_back.Common.{
  ℕ, ◌+◌, ◌*◌, ◌%◌, ◌^◌, ◌≡◌, Bool, true, false, ◌&&◌, Option, some, none, List, [], ◌∷◌, ◌++◌,
  length, String, Result, ok, err, ltb, leb, ◌==◌, if◌then◌else◌,
}
use angavu_intelligence_back.MessageBus.{
  ModuleId, same_module, Priority, low, normal, high, critical, ModuleMessage, extract_trace_id,
  message_type_name, extract_source_module, extract_priority,
}

pub record MessageBusConfig : Type 0 where
  pub broadcast_capacity : ℕ
  pub module_queue_capacity : ℕ
  pub audit_enabled : Bool
  pub backpressure_threshold_pct : ℕ
  pub drop_low_priority_on_pressure : Bool

abbrev pub default_config : MessageBusConfig
default_config = record {
  broadcast_capacity = 16384;
  module_queue_capacity = 4096;
  audit_enabled = true;
  backpressure_threshold_pct = 75;
  drop_low_priority_on_pressure = true;
}

pub record AuditEntry : Type 0 where
  pub timestamp : ℕ
  pub trace_id : String
  pub message_type : String
  pub source : ModuleId
  pub destination : Option ModuleId
  pub priority : Priority
  pub payload_size_bytes : ℕ

pub data BusError : Type 0 where
  module_queue_full : ModuleId → BusError
  module_not_registered : ModuleId → BusError

-- The outcome of `try_send`.
pub data TrySend : Type 0 where
  sent full closed : TrySend

-- The bounded channels of tokio. `accepted` is what a channel was ever given, the oldest first. `send`
-- waits for room, and fails if the receiver is gone.
pub record Mpsc (M : Type 0) : Type 1 where
  pub Queue : Type 0
  pub channel : ℕ → Queue
  pub try_send : M → Queue → TrySend × Queue
  pub send : M → Queue → Bool × Queue
  pub accepted : Queue → List M
  pub try_send-sent :
      (m : M) (q : Queue)
      → (try_send m q).0 ≡ sent
      → accepted (try_send m q).1 ≡ accepted q ++ m ∷ []
  pub try_send-full :
      (m : M) (q : Queue) → (try_send m q).0 ≡ full → accepted (try_send m q).1 ≡ accepted q
  pub try_send-closed :
      (m : M) (q : Queue) → (try_send m q).0 ≡ closed → accepted (try_send m q).1 ≡ accepted q
  pub send-true :
      (m : M) (q : Queue) → (send m q).0 ≡ true → accepted (send m q).1 ≡ accepted q ++ m ∷ []
  pub send-false : (m : M) (q : Queue) → (send m q).0 ≡ false → accepted (send m q).1 ≡ accepted q

-- `fetch_add(1)`
abbrev pub fetch_add : ℕ → ℕ
fetch_add n = (n + 1) % 2 ^ 64

abbrev is_low : Priority → Bool
is_low low = true
is_low _ = false

-- `priority >= Priority::High`
abbrev pub at_least_high : Priority → Bool
at_least_high high = true
at_least_high critical = true
at_least_high _ = false

size_of : Option ℕ → ℕ
size_of none = 0
size_of (some n) = n

-- The buffer is emptied at 512 entries, and the entries taken out are counted in a log line only.
unfoldable pub push_entry : AuditEntry → List AuditEntry → List AuditEntry
push_entry e buffer =
    let pushed = buffer ++ e ∷ [] in if leb 512 (length pushed) then [] else pushed

module _ {A : Type 0} (mpsc : Mpsc (ModuleMessage A)) (size : ModuleMessage A → Option ℕ) where
  open mpsc use {Queue, channel, try_send, send, accepted}

  -- `broadcasts` is what the broadcast channel was given.
  pub record ModuleMessageBus : Type 0 where
    pub broadcasts : List (ModuleMessage A)
    pub module_queues : List (ModuleId × Queue)
    pub audit_buffer : List AuditEntry
    pub config : MessageBusConfig
    pub messages_published : ℕ
    pub messages_delivered : ℕ
    pub messages_dropped : ℕ
    pub backpressure_events : ℕ

  unfoldable pub new : MessageBusConfig → ModuleMessageBus
  new config = record {
    broadcasts = [];
    module_queues = [];
    audit_buffer = [];
    config = config;
    messages_published = 0;
    messages_delivered = 0;
    messages_dropped = 0;
    backpressure_events = 0;
  }

  unfoldable pub queue_of : ModuleId → List (ModuleId × Queue) → Option Queue
  queue_of id [] = none
  queue_of id ((j, q) ∷ qs) = if same_module j id then some q else queue_of id qs

  unfoldable pub set_queue : ModuleId → Queue → List (ModuleId × Queue) → List (ModuleId × Queue)
  set_queue id q [] = (id, q) ∷ []
  set_queue id q ((j, p) ∷ qs) =
      if same_module j id then (id, q) ∷ qs else (j, p) ∷ set_queue id q qs

  unfoldable pub register_module : ModuleId → ModuleMessageBus → ModuleMessageBus
  register_module module_id b = record b {
    module_queues = set_queue module_id (channel b.config.module_queue_capacity) b.module_queues;
  }

  unfoldable pub entry_of : ℕ → ModuleMessage A → Option ModuleId → AuditEntry
  unfolding size_of
  entry_of now m destination = record {
    timestamp = now;
    trace_id = extract_trace_id m;
    message_type = message_type_name m;
    source = extract_source_module m;
    destination = destination;
    priority = extract_priority m;
    payload_size_bytes = size_of (size m);
  }

  unfoldable pub audit_log :
      ℕ → ModuleMessage A → Option ModuleId → ModuleMessageBus → ModuleMessageBus
  unfolding push_entry entry_of
  audit_log now m destination b = record b {
    audit_buffer = push_entry (entry_of now m destination) b.audit_buffer;
  }

  unfoldable pub audited :
      ℕ → ModuleMessage A → Option ModuleId → ModuleMessageBus → ModuleMessageBus
  unfolding audit_log
  audited now m destination b = if b.config.audit_enabled then audit_log now m destination b else b

  -- `dropped / (published + dropped) > 1 - pct`, multiplied out.
  unfoldable pub backpressure_active : ModuleMessageBus → Bool
  backpressure_active b =
      let total = (b.messages_published + b.messages_dropped) % 2 ^ 64 in
      if b.messages_published == 0
      then false
      else ltb (total * 100)
          (b.messages_dropped * 100 + total * b.config.backpressure_threshold_pct)

  -- The result is always `Ok(())`.
  unfoldable pub publish : ℕ → ℕ → ModuleMessage A → ModuleMessageBus → ModuleMessageBus
  unfolding audited
  publish now receivers m b =
      if (b.config.drop_low_priority_on_pressure && is_low (extract_priority m))
        && backpressure_active b
      then record b { messages_dropped = fetch_add b.messages_dropped }
      else let c = audited now m none b in
        if receivers == 0 then c else record c {
          broadcasts = c.broadcasts ++ m ∷ [];
          messages_published = fetch_add c.messages_published;
        }

  unfoldable pub publish_priority :
      ℕ → ℕ → ModuleMessage A → Priority → ModuleMessageBus → ModuleMessageBus
  publish_priority now receivers m critical b = publish now receivers m b
  publish_priority now receivers m low b = publish now receivers m b
  publish_priority now receivers m normal b = publish now receivers m b
  publish_priority now receivers m high b = publish now receivers m b

  -- What follows the wait for room.
  unfoldable pub after_wait :
      ModuleId → Bool × Queue → ModuleMessageBus → Result BusError (Unit {0}) × ModuleMessageBus
  after_wait target (true, q) b = (
    ok tt,
    record b {
      module_queues = set_queue target q b.module_queues;
      messages_delivered = fetch_add b.messages_delivered;
      backpressure_events = fetch_add b.backpressure_events;
    },
  )
  after_wait target (false, q) b = (
    err (module_queue_full target),
    record b { module_queues = set_queue target q b.module_queues },
  )

  -- The queue is full: an important message waits for room, another is dropped.
  unfoldable pub on_full :
      ModuleId
      → ModuleMessage A
      → Queue
      → ModuleMessageBus
      → Result BusError (Unit {0}) × ModuleMessageBus
  on_full target m q b =
      if at_least_high (extract_priority m)
      then after_wait target (send m q) b
      else (ok tt, record b { messages_dropped = fetch_add b.messages_dropped })

  unfoldable pub after_try :
      ModuleId
      → ModuleMessage A
      → TrySend × Queue
      → ModuleMessageBus
      → Result BusError (Unit {0}) × ModuleMessageBus
  after_try target m (sent, q) b = (
    ok tt,
    record b {
      module_queues = set_queue target q b.module_queues;
      messages_delivered = fetch_add b.messages_delivered;
    },
  )
  after_try target m (full, q) b =
      on_full target m q (record b { module_queues = set_queue target q b.module_queues })
  after_try target m (closed, q) b = (
    err (module_not_registered target),
    record b { module_queues = set_queue target q b.module_queues },
  )

  -- `send_to_module`, after the audit log.
  unfoldable pub deliver :
      ModuleId → ModuleMessage A → ModuleMessageBus → Result BusError (Unit {0}) × ModuleMessageBus
  deliver target m b = elim (queue_of target b.module_queues) [
    | none ↦ (err (module_not_registered target), b)
    | some q ↦ after_try target m (try_send m q) b
  ]

  unfoldable pub send_to_module :
      ℕ
      → ModuleId
      → ModuleMessage A
      → ModuleMessageBus
      → Result BusError (Unit {0}) × ModuleMessageBus
  unfolding audited
  send_to_module now target m b = deliver target m (audited now m (some target) b)

  unfoldable pub flush_audit : ModuleMessageBus → List AuditEntry × ModuleMessageBus
  flush_audit b = (b.audit_buffer, record b { audit_buffer = [] })
