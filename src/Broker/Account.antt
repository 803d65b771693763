-- ===== src/Broker/Account.antt =====
-- services/backtest/broker.py: the broker's state, and what it reports of the account.
use carcharoth.Base.{ℕ, String, [], Option, none, some, map, or_else}
use carcharoth.Base.Eq.{string_eq}
use carcharoth.Base.Float.{Float, ◌⊕◌, ◌⊖◌, ◌⊗◌, nought, fmax}
use carcharoth.Base.Dict.{Dict, get}
use carcharoth.Base.Result.{Error, Result, ok, err}
use carcharoth.Domain.{Time, Position, AccountState, OrderRequest, OrderResult}

pub record Holding (F : Type 0) : Type 0 where
  pub qty : F
  pub avg_entry_price : F

pub record Broker (F : Type 0) : Type 0 where
  pub cash : F
  pub spread_pct : F
  pub slippage_pct : F
  pub margin_multiplier : F
  pub holdings : Dict String (Holding F)
  pub closes : Dict String F
  pub as_of : Option Time
  pub last_equity : F
  pub session_date : Option ℕ
  pub orders : Dict String (OrderResult F)
  pub pending : Dict String (OrderRequest F)

-- `SimulatedBroker.__init__`
unfoldable pub init : {F : Type 0} → F → F → F → F → Broker F
init initial_capital spread_pct slippage_pct margin_multiplier = record {
  cash = initial_capital;
  spread_pct = spread_pct;
  slippage_pct = slippage_pct;
  margin_multiplier = margin_multiplier;
  holdings = [];
  closes = [];
  as_of = none;
  last_equity = initial_capital;
  session_date = none;
  orders = [];
  pending = [];
}

-- `_require_time`
unfoldable pub require_time : {F : Type 0} → Broker F → Result Time
require_time b = elim b.as_of [ none ↦ err Error.broker_error | some t ↦ ok t ]

-- `_price`
unfoldable pub price_of : {F : Type 0} → Broker F → String → Holding F → F
price_of b symbol holding = or_else (get b.closes symbol) holding.avg_entry_price

module _ {F : Type 0} ⦃num : Float F⦄ where
  unfoldable pub signed_value : Broker F → String × Holding F → F
  unfolding price_of
  signed_value b (symbol, holding) = holding.qty ⊗ price_of b symbol holding

  unfoldable pub gross_value : Broker F → String × Holding F → F
  unfolding price_of
  gross_value b (symbol, holding) = num.abs holding.qty ⊗ price_of b symbol holding

  -- `_equity`
  unfoldable pub equity : Broker F → F
  unfolding signed_value
  equity b = b.cash ⊕ num.total (map (signed_value b) b.holdings)

  -- `_position`
  unfoldable pub position_of : Broker F → String × Holding F → Position F
  unfolding price_of
  position_of b (symbol, holding) =
      let price = price_of b symbol holding in
      record {
        symbol = symbol;
        qty = holding.qty;
        avg_entry_price = holding.avg_entry_price;
        market_value = holding.qty ⊗ price;
        unrealized_pnl = (price ⊖ holding.avg_entry_price) ⊗ holding.qty;
        current_price = price;
      }

  -- `get_account_state`
  unfoldable pub get_account_state : Broker F → AccountState F
  unfolding equity gross_value position_of
  get_account_state b =
      let gross = num.total (map (gross_value b) b.holdings) in
      record {
        equity = equity b;
        cash = b.cash;
        buying_power = fmax nought (equity b ⊗ b.margin_multiplier ⊖ gross);
        last_equity = b.last_equity;
        positions = map (λ entry. (entry.0, position_of b entry)) b.holdings;
      }
