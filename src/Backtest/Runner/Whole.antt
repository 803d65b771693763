-- ===== src/Backtest/Runner/Whole.antt =====
-- backtest/runner.py: a whole run.
use carcharoth.Base.{String, List, [], ◌∷◌, none, keep, ◌≡◌, ◌⊎◌, inl, inr, refl, ◌∙◌, ap}
use carcharoth.Base.Float.{Float, IsFloat}
use carcharoth.Base.Eq.{string_eq}
use carcharoth.Base.Dict.{Dict, get}
use carcharoth.Base.Result.{ok, value_of}
use carcharoth.Domain.{Time, Bar}
use carcharoth.Session.{MarketZone}
use carcharoth.Broker.Fills.{mark_to_market}
use carcharoth.Broker.Invariant.{IsValid}
use carcharoth.Broker.Replay.{mark_to_market-Replays}
use carcharoth.Broker.Follows.{mark_to_market-Follows}
use carcharoth.Engine.Effects.{World, Service, continue}
use carcharoth.Engine.Scheduler.{ask}
use carcharoth.Engine.Tick.{tick}
use carcharoth.Engine.Steady.{Serves, Succeeds, Succeeds-bind, Succeeds-tick}
use carcharoth.Backtest.Market.{
  advance_to, latest_bars, current_bars, timestamp_grid, require_cursor,
}
use carcharoth.Backtest.Store.{find_open_broker_order_ids}
use carcharoth.Backtest.Runner.{
  Desk, Parts, set_broker, desk_services, finish, replay_bar, replay_bars, is_replayed, run_grid,
  run,
}
use carcharoth.Backtest.Runner.Sound.{
  IsCalm, Holds, market-IsSound, broker-IsSound, desk_services-IsSteady,
}
use carcharoth.Backtest.Runner.Reconciles.{reconcile_fills-Succeeds}
use carcharoth.Backtest.Runner.Finish.{finish_closes}

-- nothing is pending in the broker, and no order of the run is open in the table
pub record IsClosed {F P : Type 0} ⦃num : Float F⦄ (run_id : String) (d : Desk F P) : Type 0 where
  pub valid : IsValid d.broker
  pub none_pending : (id : String) → get d.broker.pending id ≡ none
  pub none_open : find_open_broker_order_ids run_id d.tables ≡ []

module _ {F P : Type 0} ⦃num : Float F⦄ (laws : IsFloat F) ⦃zone : MarketZone⦄ (parts : Parts F P)
    (foreign : String → Type 0) (calm : IsCalm parts foreign) (symbols : List String) where
  Succeeds-ask :
      {A : Type 0} (service : Service (Desk F P) A)
      → Serves (Holds parts foreign) service
      → Succeeds (Holds parts foreign) (ask {F = F} service)
  Succeeds-ask service h w i = h w.outside i

  -- the broker takes a bar
  Serves-mark_to_market :
      (as_of : Time) (bars : Dict String (Bar F))
      → Serves (Holds parts foreign) (λ d. set_broker d (mark_to_market as_of bars d.broker))
  Serves-mark_to_market as_of bars d i =
      let (b, e, replay) = mark_to_market-Replays laws as_of bars d.broker i.valid in
      rw e (
        refl,
        broker-IsSound parts foreign d b i replay.valid
            (mark_to_market-Follows as_of bars d.broker b e),
      )

  Succeeds-ticks : Succeeds (Holds parts foreign) (tick (desk_services parts) symbols)
  Succeeds-ticks =
      Succeeds-tick (desk_services parts) (Holds parts foreign)
        (desk_services-IsSteady parts foreign calm) symbols (reconcile_fills-Succeeds parts foreign)

  -- a bar of the grid
  Succeeds-replay_bar :
      (as_of : Time) → Succeeds (Holds parts foreign) (replay_bar parts symbols as_of)
  unfolding replay_bar latest_bars require_cursor advance_to
  Succeeds-replay_bar as_of w i =
      let market = advance_to as_of w.outside.market in
      let latest = current_bars market as_of w.outside.market.tradable_symbols [] in
      Succeeds-bind (Holds parts foreign)
        (ask (λ d. set_broker d (mark_to_market as_of latest d.broker)))
        (λ _. tick (desk_services parts) symbols)
        (Succeeds-ask _ (Serves-mark_to_market as_of latest)) (λ _. Succeeds-ticks)
        (record w { outside = record w.outside { market = market } })
        (market-IsSound parts foreign w.outside market i)

  -- the loop of a run
  Succeeds-replay_bars :
      (grid : List Time) → Succeeds (Holds parts foreign) (replay_bars parts symbols grid)
  unfolding replay_bars
  Succeeds-replay_bars [] = λ w i. (refl, i)
  Succeeds-replay_bars (as_of ∷ grid) =
      Succeeds-bind (Holds parts foreign) (replay_bar parts symbols as_of)
        (λ _. replay_bars parts symbols grid) (Succeeds-replay_bar as_of)
        (λ _. Succeeds-replay_bars grid)

  run_grid_closes :
      (grid : List Time) (w : World F (Desk F P))
      → Holds parts foreign w.outside
      → (w' : World F (Desk F P)) × (run_grid parts symbols grid w ≡ (ok tt, w'))
        × (((grid ≡ []) × (w'.outside ≡ w.outside)) ⊎ IsClosed parts.run_id w'.outside)
  unfolding run_grid
  run_grid_closes [] w i = (w, refl, inl (refl, refl))
  run_grid_closes (first ∷ grid) w i =
      let (fine, after) = Succeeds-replay_bars (first ∷ grid) w i in
      let (_, e) = value_of (replay_bars parts symbols (first ∷ grid) w).0 fine in
      let reached = (replay_bars parts symbols (first ∷ grid) w).1 in
      let (w', ran, finished) = finish_closes parts reached after.valid after.linked in
      (
        w',
        ap (λ r. continue r (λ _. finish parts) reached) e ∙ ran,
        inr (record {
          valid = finished.valid;
          none_pending = finished.none_pending;
          none_open = finished.none_open;
        }),
      )

  -- A backtest runs to its end and leaves nothing open: over a desk whose broker is valid and whose
  -- tables belong to it, where uuid4 gives no id of another run's trade and the repository of the
  -- snapshots does not raise, a run never raises, whatever the model, the risk manager and the
  -- repository of the decisions do; either there is no bar to replay and the desk is as it was, or the
  -- broker is valid then, no order is pending in it, and no order of the run is open in the table.
  pub run_closes :
      (start end_ : Time) (w : World F (Desk F P))
      → Holds parts foreign w.outside
      → (w' : World F (Desk F P)) × (run parts symbols start end_ w ≡ (ok tt, w'))
        × (((keep (is_replayed parts symbols) (timestamp_grid start end_ w.outside.market) ≡ [])
              × (w'.outside ≡ w.outside))
            ⊎ IsClosed parts.run_id w'.outside)
  unfolding run
  run_closes start end_ w i =
      run_grid_closes
        (keep (is_replayed parts symbols) (timestamp_grid start end_ w.outside.market)) w i
