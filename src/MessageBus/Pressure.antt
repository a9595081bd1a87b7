-- ===== src/MessageBus/Pressure.antt =====
-- Messages of low priority while the bus is under pressure.
use angavu_intelligence_back.Common.{
  ℕ, suc, ◌+◌, ◌*◌, ◌%◌, ◌^◌, ◌<◌, ◌≡◌, ◌∙◌, refl, true, false, Option, List, [], ◌∷◌, All, length,
  lt→ltb, ltb→lt, ◌==◌, Bool-cases, inl, inr, arith,
}
use angavu_intelligence_back.MessageBus.{ModuleMessage, low, extract_priority}
use angavu_intelligence_back.MessageBus.Bus.{Mpsc, ModuleMessageBus, backpressure_active, publish}

grow :
    (p d c : ℕ)
    → (p + d) * 100 < d * 100 + (p + d) * c
    → (p + (d + 1)) * 100 < (d + 1) * 100 + (p + (d + 1)) * c
grow p d c h = let e : (p + (d + 1)) * c ≡ (p + d) * c + c = grind arith in omega (arith, e)

module _ {A : Type 0} (mpsc : Mpsc (ModuleMessage A)) (size : ModuleMessage A → Option ℕ) where
  -- The publications of a series, each with its time and the number of receivers.
  unfoldable pub publish_all :
      List (ℕ × ℕ × ModuleMessage A) → ModuleMessageBus mpsc size → ModuleMessageBus mpsc size
  publish_all [] b = b
  publish_all ((now, receivers, m) ∷ ms) b = publish_all ms (publish mpsc size now receivers m b)

  abbrev pub dropped_more : ℕ → ModuleMessageBus mpsc size → ModuleMessageBus mpsc size
  dropped_more n b = record b { messages_dropped = b.messages_dropped + n }

  active_numbers :
      (b : ModuleMessageBus mpsc size)
      → b.messages_published + b.messages_dropped < 2 ^ 64
      → backpressure_active mpsc size b ≡ true
      → ((b.messages_published == 0) ≡ false)
        × ((b.messages_published + b.messages_dropped) * 100
            < b.messages_dropped * 100
              + (b.messages_published + b.messages_dropped) * b.config.backpressure_threshold_pct)
  unfolding backpressure_active
  active_numbers b small h =
      let total : (b.messages_published + b.messages_dropped) % 2 ^ 64
          ≡ b.messages_published + b.messages_dropped =
        omega arith in
      elim (Bool-cases (b.messages_published == 0)) [
        | inl e ↦ cc (rw e at h)
        | inr e ↦ (e, ltb→lt _ _ (rw (e, total) at h))
      ]

  numbers_active :
      (b : ModuleMessageBus mpsc size)
      → b.messages_published + b.messages_dropped < 2 ^ 64
      → (b.messages_published == 0) ≡ false
      → (b.messages_published + b.messages_dropped) * 100
        < b.messages_dropped * 100
          + (b.messages_published + b.messages_dropped) * b.config.backpressure_threshold_pct
      → backpressure_active mpsc size b ≡ true
  unfolding backpressure_active
  numbers_active b small some_published h =
      let total : (b.messages_published + b.messages_dropped) % 2 ^ 64
          ≡ b.messages_published + b.messages_dropped =
        omega arith in
      rw (some_published, total) (lt→ltb _ _ h)

  active_more :
      (b : ModuleMessageBus mpsc size)
      → b.messages_published + b.messages_dropped + 1 < 2 ^ 64
      → backpressure_active mpsc size b ≡ true
      → backpressure_active mpsc size (dropped_more 1 b) ≡ true
  active_more b small h =
      let (published, over) = active_numbers b (omega arith) h in
      numbers_active (dropped_more 1 b) (omega arith) published
        (grow b.messages_published b.messages_dropped b.config.backpressure_threshold_pct over)

  publish_low :
      (now receivers : ℕ) (m : ModuleMessage A) (b : ModuleMessageBus mpsc size)
      → b.config.drop_low_priority_on_pressure ≡ true
      → extract_priority m ≡ low
      → backpressure_active mpsc size b ≡ true
      → b.messages_published + b.messages_dropped + 1 < 2 ^ 64
      → publish mpsc size now receivers m b ≡ dropped_more 1 b
  unfolding publish backpressure_active
  publish_low now receivers m b on is h small =
      let no_wrap : (b.messages_dropped + 1) % 2 ^ 64 ≡ b.messages_dropped + 1 = omega arith in
      rw (on, is, h, no_wrap) refl

  dropped_twice :
      (n : ℕ) (b : ModuleMessageBus mpsc size)
      → dropped_more n (dropped_more 1 b) ≡ dropped_more (suc n) b
  dropped_twice n b = ground arith

  -- Where low messages are dropped under pressure, the bus is under pressure, and its counters are not near
  -- 2^64: of a series of messages of low priority none is published or audited, whatever their number; only
  -- the counter of dropped ones grows, and the bus is under pressure still.
  pub publish_all-dropped :
      (ms : List (ℕ × ℕ × ModuleMessage A)) (b : ModuleMessageBus mpsc size)
      → b.config.drop_low_priority_on_pressure ≡ true
      → All (λ p. extract_priority p.2 ≡ low) ms
      → backpressure_active mpsc size b ≡ true
      → b.messages_published + b.messages_dropped + length ms < 2 ^ 64
      → (publish_all ms b ≡ dropped_more (length ms) b)
        × (backpressure_active mpsc size (publish_all ms b) ≡ true)
  unfolding publish_all
  publish_all-dropped [] b on all h small = (ground arith, h)
  publish_all-dropped ((now, receivers, m) ∷ ms) b on all h small =
      let one = publish_low now receivers m b on all.0 h (omega arith) in
      let (rest, still) =
        publish_all-dropped ms (dropped_more 1 b) on all.1 (active_more b (omega arith) h)
          (omega arith) in
      rw one (rest ∙ dropped_twice (length ms) b, still)
