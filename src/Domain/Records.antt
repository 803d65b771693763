-- ===== src/Domain/Records.antt =====
-- What analysis reads back: the trade, decision, equity and metric records of domain/models.py.
use carcharoth.Base.{String, Option}
use carcharoth.Base.Dict.{Dict}
use carcharoth.Domain.Enums.{TargetExposure, Side}
use carcharoth.Domain.Market.{Time}

pub record TradeRecord (F : Type 0) : Type 0 where
  pub symbol : String
  pub side : Side
  pub qty : F
  pub price : F
  pub timestamp : Time

pub record DecisionRecord (F : Type 0) : Type 0 where
  pub symbol : String
  pub target : TargetExposure
  pub timestamp : Time
  pub reason : String
  pub features : Dict String F
  pub prediction : Dict String F
  pub model_id : String
  pub order_side : Option Side

pub record EquityPoint (F : Type 0) : Type 0 where
  pub timestamp : Time
  pub equity : F

pub record PositionSnapshot (F : Type 0) : Type 0 where
  pub symbol : String
  pub timestamp : Time
  pub unrealized_pnl : F

pub record MetricValue (F : Type 0) : Type 0 where
  pub name : String
  pub value : F
  pub symbol : Option String
