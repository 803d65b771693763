-- ===== src/Engine/Services.antt =====
-- The services of interfaces/ and the repositories that the engine is given.
use carcharoth.Base.{String, Bool, List, Option}
use carcharoth.Domain.{
  ExposureIntent, RiskDecision, OrderRequest, OrderResult, OpenOrder, AccountState, Time,
  MarketSnapshot, MarketDataRequirements, BarSpec, Position, Quote,
}
use carcharoth.Engine.Effects.{Service}

pub record Services (F W : Type 0) : Type 0 where
  -- MarketDataService, AccountService
  pub get_snapshot : List String → BarSpec → Service W (MarketSnapshot F)
  pub get_account_state : Service W (AccountState F)
  -- ModelSignalGenerator
  pub market_requirements : Service W MarketDataRequirements
  pub generate : String → MarketSnapshot F → Option (Position F) → Service W (ExposureIntent F)
  -- RiskManager
  pub assess : ExposureIntent F → AccountState F → Quote F → Service W (RiskDecision F)
  -- OrderExecutor
  pub submit : OrderRequest F → Service W (OrderResult F)
  pub get_order : String → Service W (OrderResult F)
  pub cancel_order : String → Service W (Unit {0})
  -- ModelDecisionRepository, OrderRepository, TradeRepository, PositionSnapshotRepository
  pub save_decision : ExposureIntent F → Option (RiskDecision F) → Time → Service W (Unit {0})
  pub save_submitted : OrderRequest F → OrderResult F → Service W (Unit {0})
  pub find_open_orders : String → Service W (List OpenOrder)
  pub find_open_broker_order_ids : Service W (List String)
  pub update_from_broker : OrderResult F → Service W (Unit {0})
  pub exists_for_order : String → Service W Bool
  pub save_fill : OrderResult F → Service W (Unit {0})
  pub save_snapshot : Time → AccountState F → Service W (Unit {0})
  -- `uuid4().hex`
  pub fresh_id : Service W String
