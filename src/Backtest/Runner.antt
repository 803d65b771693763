-- ===== src/Backtest/Runner.antt =====
-- backtest/runner.py: `BacktestRunner`, over the engine whose services are the historical market
-- data, the simulated broker and the tables of the run, as `_execute_backtest` of main.py wires them.
pub mod Links
pub mod Rounds
pub mod Open
pub mod Sound
pub mod Reconciles
pub mod Whole
pub mod Finish
use carcharoth.Base.{
  ℕ, String, List, [], ◌∷◌, Bool, true, false, Option, none, some, ◌&&◌, not, keep, if◌then◌else◌,
}
use carcharoth.Base.Eq.{string_eq}
use carcharoth.Base.Float.{Float, ◌≺◌, ◌≼◌, nought}
use carcharoth.Base.Dict.{Dict}
use carcharoth.Base.Result.{Error, Result, ok, err}
use carcharoth.Domain.{
  Time, Bar, Position, Quote, MarketSnapshot, MarketDataRequirements, ExposureIntent, RiskDecision,
  AccountState, OrderRequest, OrderResult, is_filled,
}
use carcharoth.Session.{MarketZone, minutes_since_open, minutes_until_close}
use carcharoth.Broker.Account.{Broker, get_account_state}
use carcharoth.Broker.Orders as Orders
use carcharoth.Broker.Fills.{mark_to_market}
use carcharoth.Engine.Effects.{World, Exec, Service, pure, continue, ◌>>=◌, ◌>>◌}
use carcharoth.Engine.Services.{Services}
use carcharoth.Engine.Tick.{tick}
use carcharoth.Engine.Scheduler.{ask}
use carcharoth.Backtest.Market.{History, advance_to, timestamp_grid, latest_bars, get_snapshot}
use carcharoth.Backtest.Store.{
  Tables, save_submitted, update_from_broker, find_open_broker_order_ids, find_open_orders,
  exists_for_order, save_fill,
}

-- the objects that the runner and the engine share
pub record Desk (F P : Type 0) : Type 0 where
  pub market : History F
  pub broker : Broker F
  pub tables : Tables F
  pub rest : P

-- the other parts: the model, the risk manager, the buffered repositories and `uuid4`
pub record Parts (F P : Type 0) : Type 0 where
  pub run_id : String
  pub requirements : MarketDataRequirements
  pub generate : String → MarketSnapshot F → Option (Position F) → P → Result (ExposureIntent F) × P
  pub assess : ExposureIntent F → AccountState F → Quote F → Result (RiskDecision F)
  pub save_decision : ExposureIntent F → Option (RiskDecision F) → Time → P → Result (Unit {0}) × P
  pub save_snapshot : Time → AccountState F → P → Result (Unit {0}) × P
  pub fresh_id : P → String × P

module _ {F P : Type 0} where
  -- a service that reads
  abbrev pub reads : {A : Type 0} → (Desk F P → Result A) → Service (Desk F P) A
  reads f d = (f d, d)

  -- a service that changes one of the objects, or raises and changes nothing
  abbrev pub set_broker : Desk F P → Result (Broker F) → Result (Unit {0}) × Desk F P
  set_broker d (ok b) = (ok tt, record d { broker = b })
  set_broker d (err e) = (err e, d)

  abbrev pub set_tables : Desk F P → Result (Tables F) → Result (Unit {0}) × Desk F P
  set_tables d (ok t) = (ok tt, record d { tables = t })
  set_tables d (err e) = (err e, d)

  abbrev pub set_order :
      Desk F P → Result (OrderResult F × Broker F) → Result (OrderResult F) × Desk F P
  set_order d (ok (o, b)) = (ok o, record d { broker = b })
  set_order d (err e) = (err e, d)

  abbrev pub set_rest : {A : Type 0} → Desk F P → Result A × P → Result A × Desk F P
  set_rest d (r, rest) = (r, record d { rest = rest })

module _ {F P : Type 0} ⦃num : Float F⦄ (parts : Parts F P) where
  -- `submit` of the broker, with the id that `uuid4` gives it
  abbrev pub submit_with :
      OrderRequest F → Desk F P → String × P → Result (OrderResult F) × Desk F P
  submit_with request d (id, rest) =
      set_order (record d { rest = rest }) (Orders.submit id request d.broker)

  -- the services of the engine
  unfoldable pub desk_services : Services F (Desk F P)
  unfolding get_snapshot get_account_state Orders.submit Orders.get_order Orders.cancel_order
      save_submitted update_from_broker find_open_broker_order_ids find_open_orders exists_for_order
      save_fill
  desk_services = record {
    get_snapshot = λ symbols spec. reads (λ d. get_snapshot symbols spec d.market);
    get_account_state = reads (λ d. ok (get_account_state d.broker));
    market_requirements = reads (λ d. ok parts.requirements);
    generate =
        λ symbol snapshot position d. set_rest d (parts.generate symbol snapshot position d.rest);
    assess = λ intent state quote. reads (λ d. parts.assess intent state quote);
    submit = λ request d. submit_with request d (parts.fresh_id d.rest);
    get_order = λ id. reads (λ d. Orders.get_order id d.broker);
    cancel_order = λ id d. set_broker d (Orders.cancel_order id d.broker);
    save_decision =
        λ intent decision t d. set_rest d (parts.save_decision intent decision t d.rest);
    save_submitted = λ request result d. set_tables d (save_submitted parts.run_id result d.tables);
    find_open_orders = λ symbol. reads (λ d. ok (find_open_orders parts.run_id symbol d.tables));
    find_open_broker_order_ids = reads (λ d. ok (find_open_broker_order_ids parts.run_id d.tables));
    update_from_broker = λ result d. set_tables d (update_from_broker result d.tables);
    exists_for_order = λ id. reads (λ d. ok (exists_for_order parts.run_id id d.tables));
    save_fill = λ result d. set_tables d (save_fill parts.run_id result d.tables);
    save_snapshot = λ t state d. set_rest d (parts.save_snapshot t state d.rest);
    fresh_id = λ d. let (id, rest) = parts.fresh_id d.rest in (ok id, record d { rest = rest });
  }

  -- `if not exists_for_order: save_fill`
  abbrev pub save_new : OrderResult F → Bool → Exec F (Desk F P) (Unit {0})
  save_new result known =
      if known then pure tt else ask (λ d. set_tables d (save_fill parts.run_id result d.tables))

  abbrev pub save_if_filled : String → OrderResult F → Exec F (Desk F P) (Unit {0})
  save_if_filled id result =
      if is_filled result.status
      then ask (reads (λ d. ok (exists_for_order parts.run_id id d.tables))) >>= save_new result
      else pure tt

  -- the round of `_reconcile_remaining` for an order
  unfoldable pub reconcile_one : String → Exec F (Desk F P) (Unit {0})
  unfolding Orders.get_order update_from_broker exists_for_order save_fill
  reconcile_one id = do
    result ← ask (reads (λ d. Orders.get_order id d.broker))
    ask (λ d. set_tables d (update_from_broker result d.tables))
    save_if_filled id result

  unfoldable pub reconcile_ids : List String → Exec F (Desk F P) (Unit {0})
  unfolding reconcile_one
  reconcile_ids [] = pure tt
  reconcile_ids (id ∷ ids) = reconcile_one id >> reconcile_ids ids

  -- `_reconcile_remaining`
  unfoldable pub reconcile_remaining : Exec F (Desk F P) (Unit {0})
  unfolding find_open_broker_order_ids reconcile_ids
  reconcile_remaining =
      ask (reads (λ d. ok (find_open_broker_order_ids parts.run_id d.tables))) >>= reconcile_ids

  -- what follows the loop of `run`
  unfoldable pub finish : Exec F (Desk F P) (Unit {0})
  unfolding Orders.cancel_pending reconcile_remaining
  finish = ask (λ d. set_broker d (Orders.cancel_pending d.broker)) >> reconcile_remaining

  module _ ⦃zone : MarketZone⦄ (symbols : List String) where
    -- one bar of the grid
    unfoldable pub replay_bar : Time → Exec F (Desk F P) (Unit {0})
    unfolding advance_to latest_bars mark_to_market tick desk_services
    replay_bar as_of = do
      ask (λ d. (ok tt, record d { market = advance_to as_of d.market }))
      latest ← ask (reads (λ d. latest_bars d.market))
      ask (λ d. set_broker d (mark_to_market as_of latest d.broker))
      tick desk_services symbols

    -- the loop of `run`
    unfoldable pub replay_bars : List Time → Exec F (Desk F P) (Unit {0})
    unfolding replay_bar
    replay_bars [] = pure tt
    replay_bars (as_of ∷ grid) = replay_bar as_of >> replay_bars grid

    -- `minutes_since_open(as_of) >= 0 and minutes_until_close(as_of) > 0`
    unfoldable pub is_replayed : Time → Bool
    unfolding minutes_since_open minutes_until_close
    is_replayed as_of =
        let opened : F = minutes_since_open as_of in
        let closing : F = minutes_until_close as_of in nought ≼ opened && nought ≺ closing

    -- the run by its grid
    unfoldable pub run_grid : List Time → Exec F (Desk F P) (Unit {0})
    unfolding replay_bars finish
    run_grid [] = pure tt
    run_grid (first ∷ grid) = replay_bars (first ∷ grid) >> finish

    -- `run`
    unfoldable pub run : Time → Time → Exec F (Desk F P) (Unit {0})
    unfolding timestamp_grid keep is_replayed run_grid
    run start end_ =
        ask (reads (λ d. ok (keep is_replayed (timestamp_grid start end_ d.market)))) >>= run_grid
