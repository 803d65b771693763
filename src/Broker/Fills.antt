-- ===== src/Broker/Fills.antt =====
-- services/backtest/broker.py: filling pending orders at the open of a bar.
use carcharoth.Base.{ℕ, String, [], ◌∷◌, Option, none, some, if◌then◌else◌}
use carcharoth.Base.Eq.{◌==◌, string_eq, nat_eq}
use carcharoth.Base.Int.{pos}
use carcharoth.Base.Float.{Float, ◌⊕◌, ◌⊖◌, ◌⊗◌, ◌⊘◌, ◌≼◌, ◌≺◌, nought, one, divide}
use carcharoth.Base.Dict.{Dict, get, put, remove}
use carcharoth.Base.Result.{Error, Result, ok, err, raise_if, is_broker_error, ◌>>=◌, ◌>>◌}
use carcharoth.Domain.{OrderRequest, OrderResult, OrderStatus, Side, Bar, Time}
use carcharoth.Session.{MarketZone}
use carcharoth.Broker.Account.{Holding, Broker, require_time, equity, get_account_state}
use carcharoth.Broker.Orders.{terminal}

module _ {F : Type 0} ⦃num : Float F⦄ where
  -- `request.qty if request.side is Side.BUY else -request.qty`
  unfoldable pub signed_qty : OrderRequest F → F
  signed_qty request = elim request.side [
    | Side.buy ↦ request.qty
    | Side.sell ↦ num.neg request.qty
  ]

  -- `_fill_price`
  unfoldable pub fill_price : Broker F → Side → F → Result F
  fill_price b side opening = do
    raise_if (opening ≼ nought) Error.broker_error
    let half_spread = b.spread_pct ⊘ num.of_int (pos 2)
    ok (elim side [
      | Side.buy ↦ opening ⊗ (one ⊕ half_spread) ⊗ (one ⊕ b.slippage_pct)
      | Side.sell ↦ opening ⊗ (one ⊖ half_spread) ⊗ (one ⊖ b.slippage_pct)
    ])

  unfoldable pub held_qty : Option (Holding F) → F
  held_qty none = nought
  held_qty (some holding) = holding.qty

  -- `_validate_buying_power`
  unfoldable pub validate_buying_power : Broker F → OrderRequest F → F → Result (Unit {0})
  unfolding signed_qty held_qty
  validate_buying_power b request price =
      let signed_delta = signed_qty request in
      let current_qty = held_qty (get b.holdings request.symbol) in
      if num.abs (current_qty ⊕ signed_delta) ≼ num.abs current_qty
      then ok tt
      else raise_if ((get_account_state b).buying_power ≺ request.qty ⊗ price) Error.broker_error

  -- the average entry price of a holding that is not closed, with `delta` more at `price`
  unfoldable pub entry_price_after : Holding F → F → F → Result F
  entry_price_after holding delta price =
      let new_qty = holding.qty ⊕ delta in
      if nought ≺ holding.qty ⊗ delta
      then divide (holding.avg_entry_price ⊗ num.abs holding.qty ⊕ price ⊗ num.abs delta)
          (num.abs new_qty)
      else ok (if holding.qty ⊗ new_qty ≺ nought then price else holding.avg_entry_price)

  -- `_apply_fill` after the cash has moved, on the holding of the symbol
  unfoldable pub settle_holding :
      Dict String (Holding F)
      → String
      → Option (Holding F)
      → F
      → F
      → Result (Dict String (Holding F))
  unfolding entry_price_after
  settle_holding holdings symbol none delta price =
      ok (put holdings symbol (record { qty = delta; avg_entry_price = price }))
  settle_holding holdings symbol (some holding) delta price =
      let new_qty = holding.qty ⊕ delta in
      if num.eq new_qty nought then ok (remove holdings symbol) else (do
        avg ← entry_price_after holding delta price
        ok (put holdings symbol (record { qty = new_qty; avg_entry_price = avg })))

  -- the end of `_apply_fill`: where it raises, the cash has moved and the holdings have not
  unfoldable pub conclude_settling :
      Broker F → Result (Dict String (Holding F)) → Result (Unit {0}) × Broker F
  conclude_settling paid (err e) = (err e, paid)
  conclude_settling paid (ok holdings) = (ok tt, record paid { holdings = holdings })

  -- `_apply_fill`, with the broker that it leaves also where it raises
  unfoldable pub apply_fill : Broker F → OrderRequest F → F → Result (Unit {0}) × Broker F
  unfolding signed_qty settle_holding conclude_settling
  apply_fill b request price =
      let delta = signed_qty request in
      conclude_settling (record b { cash = b.cash ⊖ delta ⊗ price })
        (settle_holding b.holdings request.symbol (get b.holdings request.symbol) delta price)

  -- the order once it is filled
  unfoldable pub filled_order : String → OrderResult F → OrderRequest F → F → Time → OrderResult F
  filled_order broker_order_id current request price as_of = record {
    broker_order_id = broker_order_id;
    client_order_id = current.client_order_id;
    symbol = request.symbol;
    side = request.side;
    qty = request.qty;
    status = OrderStatus.filled;
    filled_qty = request.qty;
    filled_avg_price = some price;
    submitted_at = current.submitted_at;
    filled_at = some as_of;
  }

  -- the last statement of the `try` in `_fill_pending`, with the price that the `else` reads
  unfoldable pub conclude_try : F → Result (Unit {0}) × Broker F → Result F × Broker F
  conclude_try price (err e, b) = (err e, b)
  conclude_try price (ok _, b) = (ok price, b)

  -- from `_validate_buying_power` on
  unfoldable pub apply_if_funded :
      Broker F → OrderRequest F → F → Result (Unit {0}) → Result F × Broker F
  unfolding apply_fill conclude_try
  apply_if_funded b request price (err e) = (err e, b)
  apply_if_funded b request price (ok _) = conclude_try price (apply_fill b request price)

  unfoldable pub fill_at : Broker F → OrderRequest F → Result F → Result F × Broker F
  unfolding apply_if_funded validate_buying_power
  fill_at b request (err e) = (err e, b)
  fill_at b request (ok price) =
      apply_if_funded b request price (validate_buying_power b request price)

  -- the body of the `try`: the price, and the broker that it leaves, also where it raises
  unfoldable pub try_fill : Broker F → OrderRequest F → F → Result F × Broker F
  unfolding fill_at fill_price
  try_fill b request opening = fill_at b request (fill_price b request.side opening)

  -- its `except BrokerError` and its `else`, then `del self._pending[broker_order_id]`
  unfoldable pub conclude_fill :
      String → OrderResult F → OrderRequest F → Time → Result F × Broker F → Result (Broker F)
  unfolding filled_order terminal
  conclude_fill broker_order_id current request as_of (ok price, b) = ok (record b {
    orders =
        put b.orders broker_order_id (filled_order broker_order_id current request price as_of);
    pending = remove b.pending broker_order_id;
  })
  conclude_fill broker_order_id current request as_of (err e, b) =
      if is_broker_error e
      then ok (record b {
        orders = put b.orders broker_order_id (terminal current OrderStatus.rejected);
        pending = remove b.pending broker_order_id;
      })
      else err e

  -- one round of the loop of `_fill_pending`, with the bar of the order's symbol
  unfoldable pub fill_order :
      Broker F → String → OrderRequest F → Time → Option (Bar F) → Result (Broker F)
  fill_order b broker_order_id request as_of none = ok b
  fill_order b broker_order_id request as_of (some bar) = elim (get b.orders broker_order_id) [
    | none ↦ err Error.key_error
    | some current ↦
        conclude_fill broker_order_id current request as_of (try_fill b request bar.open_price)
  ]

  unfoldable pub fill_all :
      Dict String (Bar F) → Time → Dict String (OrderRequest F) → Broker F → Result (Broker F)
  fill_all bars as_of [] b = ok b
  fill_all bars as_of ((broker_order_id, request) ∷ rest) b = do
    b' ← fill_order b broker_order_id request as_of (get bars request.symbol)
    fill_all bars as_of rest b'

  -- `_fill_pending`
  unfoldable pub fill_pending : Dict String (Bar F) → Broker F → Result (Broker F)
  fill_pending bars b = do as_of ← require_time b; fill_all bars as_of b.pending b

  -- `self._closes.update(...)`
  unfoldable pub update_closes : Dict String (Bar F) → Dict String F → Dict String F
  update_closes [] closes = closes
  update_closes ((symbol, bar) ∷ bars) closes = update_closes bars (put closes symbol bar.close)

  module _ ⦃zone : MarketZone⦄ where
    -- `last_equity` after the date of the session is read
    unfoldable pub roll_session : Option ℕ → ℕ → Broker F → F
    roll_session none date b = b.last_equity
    roll_session (some previous) date b = if previous == date then b.last_equity else equity b

    -- `mark_to_market`
    unfoldable pub mark_to_market : Time → Dict String (Bar F) → Broker F → Result (Broker F)
    mark_to_market as_of bars b = do
      let date = zone.local_date as_of
      filled ← fill_pending bars (record b {
        last_equity = roll_session b.session_date date b;
        session_date = some date;
        as_of = some as_of;
      })
      ok (record filled { closes = update_closes bars filled.closes })
