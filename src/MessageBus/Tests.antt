-- ===== src/MessageBus/Tests.antt =====
-- A bus over small queues.
use angavu_intelligence_back.Common.{
  ℕ, zero, suc, ◌*◌, ◌/◌, ◌≡◌, refl, Bool, true, false, Option, some, List, [], ◌∷◌, ◌++◌, length,
  drop, ok, ◌≢◌, arith,
}
use angavu_intelligence_back.MessageBus.{
  ModuleId, index, market_analyzer, credit_scorer, api_gateway, critical, ModuleMessage,
  anomaly_alert, heartbeat, market_signal, extract_priority,
}
use angavu_intelligence_back.MessageBus.Bus.{
  Mpsc, default_config, TrySend, sent, full, closed, ModuleMessageBus, new, register_module,
  queue_of, set_queue, audited, audit_log, push_entry, entry_of, backpressure_active, after_wait,
  on_full, after_try, deliver, send_to_module, flush_audit,
}
use angavu_intelligence_back.MessageBus.Audit.{send_all, entries, flush_audit-send_all}
use angavu_intelligence_back.MessageBus.Pressure.{publish_all, dropped_more, publish_all-dropped}
use angavu_intelligence_back.MessageBus.Fate.{Fate, send_to_module-Fate}

abbrev Message : Type 0
Message = ModuleMessage ℕ

-- The room that is left, and what was accepted. A receiver takes a message while a sender waits.
abbrev Slots : Type 0
Slots = ℕ × List Message

offer : Message → Slots → TrySend × Slots
offer m (zero, l) = (full, (zero, l))
offer m (suc n, l) = (sent, (n, l ++ m ∷ []))

wait : Message → Slots → Bool × Slots
wait m (n, l) = (true, (n, l ++ m ∷ []))

offer-sent : (m : Message) (q : Slots) → (offer m q).0 ≡ sent → (offer m q).1.1 ≡ q.1 ++ m ∷ []
unfolding offer
offer-sent m (zero, l) h = cc
offer-sent m (suc n, l) h = refl

offer-full : (m : Message) (q : Slots) → (offer m q).0 ≡ full → (offer m q).1.1 ≡ q.1
unfolding offer
offer-full m (zero, l) h = refl
offer-full m (suc n, l) h = cc

offer-closed : (m : Message) (q : Slots) → (offer m q).0 ≡ closed → (offer m q).1.1 ≡ q.1
unfolding offer
offer-closed m (zero, l) h = cc
offer-closed m (suc n, l) h = cc

wait-true : (m : Message) (q : Slots) → (wait m q).0 ≡ true → (wait m q).1.1 ≡ q.1 ++ m ∷ []
unfolding wait
wait-true m (n, l) h = refl

wait-false : (m : Message) (q : Slots) → (wait m q).0 ≡ false → (wait m q).1.1 ≡ q.1
unfolding wait
wait-false m (n, l) h = cc

abbrev slots : Mpsc Message
slots = record {
  Queue = Slots;
  channel = λ n. (n, []);
  try_send = offer;
  send = wait;
  accepted = λ q. q.1;
  try_send-sent = offer-sent;
  try_send-full = offer-full;
  try_send-closed = offer-closed;
  send-true = wait-true;
  send-false = wait-false;
}

abbrev size : Message → Option ℕ
size _ = some 64

-- Each queue has room for one message.
abbrev bus : ModuleMessageBus slots size
bus =
    register_module slots size credit_scorer
      (new slots size (record default_config { module_queue_capacity = 1 }))

abbrev alert : Message
alert = anomaly_alert "t1" api_gateway 900 0

alert_critical : extract_priority alert ≡ critical
unfolding extract_priority
alert_critical = refl

abbrev two_sent : ModuleMessageBus slots size
two_sent =
    (send_to_module slots size 2 credit_scorer (market_signal "t3" 0)
      (send_to_module slots size 1 credit_scorer (market_signal "t2" 0) bus).1).1

-- The second of two messages finds no room, and is dropped; an alert waits for room.
one_dropped : two_sent.messages_dropped ≡ 1
unfolding send_to_module deliver queue_of set_queue register_module new index audited audit_log
    push_entry entry_of after_try on_full after_wait offer wait extract_priority
one_dropped = refl

alert_waits : (send_to_module slots size 3 credit_scorer alert two_sent).1.backpressure_events ≡ 1
unfolding send_to_module deliver queue_of set_queue register_module new index audited audit_log
    push_entry entry_of after_try on_full after_wait offer wait extract_priority
alert_waits = refl

not_registered : (send_to_module slots size 3 market_analyzer alert bus).0 ≢ ok tt
unfolding send_to_module deliver queue_of set_queue register_module new index audited audit_log
    push_entry entry_of after_try on_full after_wait offer wait extract_priority
not_registered e = cc

send_to_module-Fate_example :
    Fate slots size credit_scorer alert two_sent
      (send_to_module slots size 3 credit_scorer alert two_sent)
send_to_module-Fate_example = send_to_module-Fate slots size 3 credit_scorer alert two_sent

abbrev sends : List (ℕ × ModuleId × Message)
sends = (1, credit_scorer, alert) ∷ (2, market_analyzer, market_signal "t2" 0) ∷ []

flush_audit-send_all_example :
    (flush_audit slots size (send_all slots size sends bus)).0
    ≡ drop (512 * (length (entries slots size sends) / 512)) (entries slots size sends)
unfolding register_module new
flush_audit-send_all_example = flush_audit-send_all slots size sends bus refl refl

-- Two of three messages were dropped.
abbrev pressed : ModuleMessageBus slots size
pressed = record bus { messages_published = 1; messages_dropped = 2 }

under_pressure : backpressure_active slots size pressed ≡ true
unfolding backpressure_active register_module new
under_pressure = refl

abbrev beats : List (ℕ × ℕ × Message)
beats = (1, 4, heartbeat credit_scorer 0) ∷ (2, 4, heartbeat credit_scorer 0) ∷ []

publish_all-dropped_example :
    (publish_all slots size beats pressed ≡ dropped_more slots size 2 pressed)
    × (backpressure_active slots size (publish_all slots size beats pressed) ≡ true)
unfolding register_module new extract_priority
publish_all-dropped_example =
    publish_all-dropped slots size beats pressed refl (refl, (refl, tt)) under_pressure
      (omega arith)
