-- ===== src/MessageBus.antt =====
-- rust-api/src/orchestrator/message_bus.rs: the messages, and what the bus reads of them. The rest of a
-- message, which it passes on unread, is one payload. A severity is in thousandths, in place of an f64.
use angavu_intelligence_back.Common.{
  ℕ, Bool, true, false, Option, some, none, List, String, ltb, ◌==◌, if◌then◌else◌,
}
pub mod Bus
pub mod Audit
pub mod Pressure
pub mod Fate
mod Tests

pub data ModuleId : Type 0 where
  orchestrator market_analyzer credit_scorer distribution_analyzer fmcg_intelligence : ModuleId
  health_metrics economic_analyzer collective_intelligence api_gateway : ModuleId
  service_price_discovery gender_inequality occupation_hazard_matrix health_economics : ModuleId
  trade_gravity fiscal_impact market_concentration property_rights governance_quality : ModuleId

-- The place of a module in the enumeration.
unfoldable pub index : ModuleId → ℕ
index orchestrator = 0
index market_analyzer = 1
index credit_scorer = 2
index distribution_analyzer = 3
index fmcg_intelligence = 4
index health_metrics = 5
index economic_analyzer = 6
index collective_intelligence = 7
index api_gateway = 8
index service_price_discovery = 9
index gender_inequality = 10
index occupation_hazard_matrix = 11
index health_economics = 12
index trade_gravity = 13
index fiscal_impact = 14
index market_concentration = 15
index property_rights = 16
index governance_quality = 17

abbrev pub same_module : ModuleId → ModuleId → Bool
same_module a b = index a == index b

pub data Priority : Type 0 where
  low normal high critical : Priority

module _ (A : Type 0) where
  -- A message with its `trace_id`, what else the bus reads, and the payload.
  pub data ModuleMessage : Type 0 where
    transaction_batch : String → A → ModuleMessage
    market_signal : String → A → ModuleMessage
    credit_assessment : String → A → ModuleMessage
    distribution_gap : String → A → ModuleMessage
    fmcg_report : String → A → ModuleMessage
    health_assessment : String → A → ModuleMessage
    economic_indicator : String → A → ModuleMessage
    -- With the source module and the severity.
    anomaly_alert : String → ModuleId → ℕ → A → ModuleMessage
    emergent_pattern : String → A → ModuleMessage
    route_command : String → Priority → A → ModuleMessage
    service_price_broadcast : String → A → ModuleMessage
    service_market_signal : String → A → ModuleMessage
    heartbeat : ModuleId → A → ModuleMessage

-- `Uuid::nil()`
abbrev pub nil_id : String
nil_id = "00000000-0000-0000-0000-000000000000"

module _ {A : Type 0} where
  unfoldable pub extract_trace_id : ModuleMessage A → String
  extract_trace_id (transaction_batch id _) = id
  extract_trace_id (market_signal id _) = id
  extract_trace_id (credit_assessment id _) = id
  extract_trace_id (distribution_gap id _) = id
  extract_trace_id (fmcg_report id _) = id
  extract_trace_id (health_assessment id _) = id
  extract_trace_id (economic_indicator id _) = id
  extract_trace_id (anomaly_alert id _ _ _) = id
  extract_trace_id (emergent_pattern id _) = id
  extract_trace_id (route_command id _ _) = id
  extract_trace_id (service_price_broadcast id _) = id
  extract_trace_id (service_market_signal id _) = id
  extract_trace_id (heartbeat _ _) = nil_id

  unfoldable pub message_type_name : ModuleMessage A → String
  message_type_name (transaction_batch _ _) = "TransactionBatch"
  message_type_name (market_signal _ _) = "MarketSignal"
  message_type_name (credit_assessment _ _) = "CreditAssessment"
  message_type_name (distribution_gap _ _) = "DistributionGap"
  message_type_name (fmcg_report _ _) = "FMCGReport"
  message_type_name (health_assessment _ _) = "HealthAssessment"
  message_type_name (economic_indicator _ _) = "EconomicIndicator"
  message_type_name (anomaly_alert _ _ _ _) = "AnomalyAlert"
  message_type_name (emergent_pattern _ _) = "EmergentPattern"
  message_type_name (route_command _ _ _) = "RouteCommand"
  message_type_name (service_price_broadcast _ _) = "ServicePriceBroadcast"
  message_type_name (service_market_signal _ _) = "ServiceMarketSignal"
  message_type_name (heartbeat _ _) = "Heartbeat"

  unfoldable pub extract_source_module : ModuleMessage A → ModuleId
  extract_source_module (transaction_batch _ _) = api_gateway
  extract_source_module (market_signal _ _) = market_analyzer
  extract_source_module (credit_assessment _ _) = credit_scorer
  extract_source_module (distribution_gap _ _) = distribution_analyzer
  extract_source_module (fmcg_report _ _) = fmcg_intelligence
  extract_source_module (health_assessment _ _) = health_metrics
  extract_source_module (economic_indicator _ _) = economic_analyzer
  extract_source_module (anomaly_alert _ source _ _) = source
  extract_source_module (emergent_pattern _ _) = collective_intelligence
  extract_source_module (route_command _ _ _) = orchestrator
  extract_source_module (service_price_broadcast _ _) = api_gateway
  extract_source_module (service_market_signal _ _) = service_price_discovery
  extract_source_module (heartbeat module_id _) = module_id

  unfoldable pub extract_priority : ModuleMessage A → Priority
  extract_priority (anomaly_alert _ _ severity _) =
      if ltb 800 severity then critical else if ltb 500 severity then high else normal
  extract_priority (route_command _ priority _) = priority
  extract_priority (heartbeat _ _) = low
  extract_priority _ = normal
