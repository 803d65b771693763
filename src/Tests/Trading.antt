-- ===== src/Tests/Trading.antt =====
-- A tick of the engine against services that answer the same each time. The world behind them
-- counts the ids that were handed out.
use carcharoth.Base.{ℕ, [], ◌∷◌, true, false, none, some, ◌≡◌, ◌⊎◌, suc, List, length}
use carcharoth.Base.Int.{ℤ, pos}
use carcharoth.Base.Result.{Error, ok, err}
use carcharoth.Domain.{
  OrderRequest, OrderResult, OrderStatus, Side, TargetExposure, MarketSnapshot, TimeframeUnit,
}
use carcharoth.Engine.Effects.{World}
use carcharoth.Engine.Services.{Services}
use carcharoth.Engine.Tick.{process_symbol, process_symbols, tick}
use carcharoth.Engine.Quiet.{submits}
use carcharoth.Base.Float.Whole.{whole}
use carcharoth.Engine.Scheduler.{Clock, run_forever}
use carcharoth.Engine.Scheduler.Survives.{run_forever_survives}
use carcharoth.Engine.Ticks.{IsTraded, process_symbols_isolates, tick_orders}
use carcharoth.Tests.Setting.{ten, quote, bar, intent, account}

abbrev result_of : OrderRequest ℤ → OrderResult ℤ
result_of request = record {
  broker_order_id = "1";
  client_order_id = request.client_order_id;
  symbol = request.symbol;
  side = request.side;
  qty = request.qty;
  status = OrderStatus.accepted;
  filled_qty = pos 0;
  filled_avg_price = none;
  submitted_at = ten;
  filled_at = none;
}

abbrev snapshot : MarketSnapshot ℤ
snapshot = record { bars = ("A", bar ten 10 ∷ []) ∷ []; quotes = ("A", quote) ∷ []; as_of = ten }

abbrev services : Services ℤ ℕ
services = record {
  get_snapshot = λ symbols bars n. (ok snapshot, n);
  get_account_state = λ n. (ok account, n);
  market_requirements = λ n. (
    ok (record {
      bars = record {
        timeframe = record { amount = pos 5; unit = TimeframeUnit.minute };
        lookback = pos 3;
      };
      context_symbols = "SPY" ∷ [];
    }),
    n,
  );
  generate = λ symbol snapshot position n. (ok (intent TargetExposure.long), n);
  assess = λ intent account quote n. (
    ok (record {
      intent = intent;
      approved = true;
      qty = pos 3;
      side = some Side.buy;
      reason = "";
    }),
    n,
  );
  submit = λ request n. (ok (result_of request), n);
  get_order = λ id n. (err Error.broker_error, n);
  cancel_order = λ id n. (ok tt, n);
  save_decision = λ intent decision time n. (ok tt, n);
  save_submitted = λ request result n. (ok tt, n);
  find_open_orders = λ symbol n. (ok [], n);
  find_open_broker_order_ids = λ n. (ok ("7" ∷ []), n);
  update_from_broker = λ result n. (ok tt, n);
  exists_for_order = λ id n. (ok false, n);
  save_fill = λ result n. (ok tt, n);
  save_snapshot = λ time state n. (ok tt, n);
  fresh_id = λ n. (ok "id", suc n);
}

abbrev world : World ℤ ℕ
world = record { outside = 0; calls = [] }

process_symbols_isolates_example :
    process_symbols services ("A" ∷ "B" ∷ []) snapshot account world ≡ (
      ok tt,
      (process_symbols services
          ("B" ∷ [])
          snapshot
          account
          (process_symbol services "A" snapshot account world).1).1,
    )
process_symbols_isolates_example =
    process_symbols_isolates services "A" ("B" ∷ []) snapshot account world

tick_orders_example :
    (submits (tick services ("A" ∷ []) world).1.calls ≡ [])
    ⊎ IsTraded services ("A" ∷ []) world (tick services ("A" ∷ []) world).1
tick_orders_example = tick_orders services ("A" ∷ []) world

-- the market is open, and the clock raises after the first tick
abbrev clock : Clock ℤ ℕ
clock = record {
  is_open = λ n. (ok true, n);
  seconds_until_open = λ n. (err Error.other, n);
  seconds_past_interval = λ n. (err Error.other, n);
}

run_forever_survives_example :
    (waits : List ℤ) × ((run_forever services clock
        ("A" ∷ [])
        (pos 60)
        (false ∷ false ∷ true ∷ [])
        world).0
      ≡ ok waits)
    × (length waits ≡ 2)
run_forever_survives_example =
    run_forever_survives services clock ("A" ∷ []) (pos 60) (false ∷ false ∷ true ∷ []) world
