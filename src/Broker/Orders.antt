-- ===== src/Broker/Orders.antt =====
-- services/backtest/broker.py: submitting, reading and cancelling orders.
use carcharoth.Base.{String, List, [], ◌∷◌, none, some, not, if◌then◌else◌}
use carcharoth.Base.Eq.{string_eq}
use carcharoth.Base.Float.{Float, ◌≼◌, nought}
use carcharoth.Base.Dict.{get, put, remove, contains, keys}
use carcharoth.Base.Result.{Error, Result, ok, err, raise_if, ◌>>=◌, ◌>>◌}
use carcharoth.Domain.{OrderRequest, OrderResult, OrderStatus, is_accepted, Time}
use carcharoth.Broker.Account.{Broker, require_time}

module _ {F : Type 0} ⦃num : Float F⦄ where
  -- the order that `submit` accepts
  unfoldable pub accepted_order : String → OrderRequest F → Time → OrderResult F
  accepted_order broker_order_id request as_of = record {
    broker_order_id = broker_order_id;
    client_order_id = request.client_order_id;
    symbol = request.symbol;
    side = request.side;
    qty = request.qty;
    status = OrderStatus.accepted;
    filled_qty = nought;
    filled_avg_price = none;
    submitted_at = as_of;
    filled_at = none;
  }

  -- `submit`, given the id that `uuid4` returns
  unfoldable pub submit : String → OrderRequest F → Broker F → Result (OrderResult F × Broker F)
  unfolding require_time accepted_order
  submit broker_order_id request b = do
    as_of ← require_time b
    raise_if (request.qty ≼ nought) Error.broker_error
    raise_if (not (contains b.closes request.symbol)) Error.broker_error
    let accepted = accepted_order broker_order_id request as_of
    ok (
      accepted,
      record b {
        orders = put b.orders broker_order_id accepted;
        pending = put b.pending broker_order_id request;
      },
    )

  -- `_terminal`
  unfoldable pub terminal : OrderResult F → OrderStatus → OrderResult F
  terminal current status = record current {
    status = status;
    filled_qty = nought;
    filled_avg_price = none;
    filled_at = none;
  }

  -- `get_order`
  unfoldable pub get_order : String → Broker F → Result (OrderResult F)
  get_order broker_order_id b = elim (get b.orders broker_order_id) [
    | none ↦ err Error.broker_error
    | some order ↦ ok order
  ]

  -- `cancel_order`
  unfoldable pub cancel_order : String → Broker F → Result (Broker F)
  unfolding get_order terminal
  cancel_order broker_order_id b = do
    current ← get_order broker_order_id b
    ok (
        if not (is_accepted current.status) then b else record b {
          pending = remove b.pending broker_order_id;
          orders = put b.orders broker_order_id (terminal current OrderStatus.canceled);
        })

  -- the loop of `cancel_pending` over the ids that were pending at its start
  unfoldable pub cancel_all : List String → Broker F → Result (Broker F)
  cancel_all [] b = ok b
  cancel_all (broker_order_id ∷ rest) b = do b' ← cancel_order broker_order_id b; cancel_all rest b'

  -- `cancel_pending`
  unfoldable pub cancel_pending : Broker F → Result (Broker F)
  cancel_pending b = cancel_all (keys b.pending) b
