-- ===== src/Backtest/Store.antt =====
-- persistence/orm.py: `OrderRow` and `TradeRow`; persistence/repositories.py:
-- `SqlAlchemyOrderRepository` and `SqlAlchemyTradeRepository`.
use carcharoth.Base.{
  String, List, Bool, false, Option, none, some, ◌&&◌, not, keep, map, or_else, if◌then◌else◌,
}
use carcharoth.Base.Eq.{◌==◌, string_eq}
use carcharoth.Base.Float.{Float, nought}
use carcharoth.Base.Dict.{Dict, get, put, contains, keys}
use carcharoth.Base.Result.{Error, Result, ok, err}
use carcharoth.Domain.{Time, Side, OrderStatus, OrderResult, OpenOrder, is_terminal}

-- The columns hold decimals, which print as the floats they are made of; a side and a status are
-- stored by their names. The primary key `id` is the position of the row.
pub record OrderRow (F : Type 0) : Type 0 where
  pub run_id : String
  pub broker_order_id : String
  pub client_order_id : Option String
  pub symbol : String
  pub side : Side
  pub qty : F
  pub status : OrderStatus
  pub created_at : Time
  pub filled_at : Option Time
  pub filled_avg_price : Option F

pub record TradeRow (F : Type 0) : Type 0 where
  pub run_id : String
  pub broker_order_id : String
  pub symbol : String
  pub side : Side
  pub qty : F
  pub price : F
  pub timestamp : Time

-- the two tables, by `broker_order_id`, which is unique in both
pub record Tables (F : Type 0) : Type 0 where
  pub orders : Dict String (OrderRow F)
  pub trades : Dict String (TradeRow F)

-- `result or other`, for an option
abbrev first_of {ℓ} : {A : Type ℓ} → Option A → Option A → Option A
first_of none other = other
first_of (some a) other = some a

module _ {F : Type 0} where
  abbrev pub submitted_row : String → OrderResult F → OrderRow F
  submitted_row run_id result = record {
    run_id = run_id;
    broker_order_id = result.broker_order_id;
    client_order_id = result.client_order_id;
    symbol = result.symbol;
    side = result.side;
    qty = result.qty;
    status = result.status;
    created_at = result.submitted_at;
    filled_at = result.filled_at;
    filled_avg_price = result.filled_avg_price;
  }

  -- `save_submitted`; a second row of an id breaks the constraint
  unfoldable pub save_submitted : String → OrderResult F → Tables F → Result (Tables F)
  save_submitted run_id result t =
      if contains t.orders result.broker_order_id
      then err Error.other
      else ok
          (record t { orders = put t.orders result.broker_order_id (submitted_row run_id result) })

  abbrev pub updated_row : OrderResult F → OrderRow F → OrderRow F
  updated_row result row = record row {
    status = result.status;
    filled_at = result.filled_at;
    filled_avg_price = first_of result.filled_avg_price row.filled_avg_price;
  }

  -- the row that `one()` finds, or raises for
  unfoldable pub update_row : OrderResult F → Option (OrderRow F) → Tables F → Result (Tables F)
  update_row result none t = err Error.other
  update_row result (some row) t =
      ok (record t { orders = put t.orders result.broker_order_id (updated_row result row) })

  -- `update_from_broker`
  unfoldable pub update_from_broker : OrderResult F → Tables F → Result (Tables F)
  unfolding update_row
  update_from_broker result t = update_row result (get t.orders result.broker_order_id) t

  -- the rows of the run that are not terminal
  abbrev pub is_open_row : String → String × OrderRow F → Bool
  is_open_row run_id (id, row) = row.run_id == run_id && not (is_terminal row.status)

  unfoldable pub find_open_broker_order_ids : String → Tables F → List String
  unfolding keep
  find_open_broker_order_ids run_id t = keys (keep (is_open_row run_id) t.orders)

  -- `find_open_orders`
  unfoldable pub find_open_orders : String → String → Tables F → List OpenOrder
  unfolding keep
  find_open_orders run_id symbol t =
      map
        (λ (entry : String × OrderRow F). record {
          broker_order_id = entry.0;
          symbol = symbol;
          side = entry.1.side;
        })
        (keep
          (λ (entry : String × OrderRow F). entry.1.symbol == symbol && is_open_row run_id entry)
          t.orders)

  abbrev of_run : String → Option (TradeRow F) → Bool
  of_run run_id none = false
  of_run run_id (some row) = row.run_id == run_id

  -- `exists_for_order`
  unfoldable pub exists_for_order : String → String → Tables F → Bool
  exists_for_order run_id broker_order_id t = of_run run_id (get t.trades broker_order_id)

module _ {F : Type 0} ⦃num : Float F⦄ where
  -- `filled_avg_price or 0`, where a zero gives a zero
  abbrev pub fill_row : String → OrderResult F → TradeRow F
  fill_row run_id result = record {
    run_id = run_id;
    broker_order_id = result.broker_order_id;
    symbol = result.symbol;
    side = result.side;
    qty = result.filled_qty;
    price = or_else result.filled_avg_price nought;
    timestamp = or_else result.filled_at result.submitted_at;
  }

  -- `save_fill`; a second row of an id breaks the constraint
  unfoldable pub save_fill : String → OrderResult F → Tables F → Result (Tables F)
  save_fill run_id result t =
      if contains t.trades result.broker_order_id
      then err Error.other
      else ok (record t { trades = put t.trades result.broker_order_id (fill_row run_id result) })
