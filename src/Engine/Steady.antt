-- ===== src/Engine/Steady.antt =====
-- engine/engine.py: a tick over services that keep what holds of the world and do not fail it.
use carcharoth.Base.{String, List, ◌∷◌, Bool, true, Option, none, some, ◌++◌, ◌≡◌, refl, ap}
use carcharoth.Base.Eq.{string_eq}
use carcharoth.Base.Result.{Result, ok, err, is_ok}
use carcharoth.Base.Sort.{dedupe, sort_by, string_le}
use carcharoth.Domain.{AccountState, Time, MarketSnapshot, MarketDataRequirements, BarSpec}
use carcharoth.Engine.Effects.{Call, World, Exec, Service, call, pure, continue, ◌>>=◌, handle, try}
use carcharoth.Engine.Services.{Services}
use carcharoth.Engine.Tick.{
  is_market_data_error, trade, snapshot_or_abort, trade_or_abort, reconcile_fills, tick,
}
use carcharoth.Engine.Ticks.{process_symbols_total}
use carcharoth.Engine.Keeps.{IsLawful, Keeps-process_symbols}

-- a service that keeps what holds of the world, and succeeds
abbrev pub Serves : {W A : Type 0} → (W → Type 0) → Service W A → Type 0
Serves {W} I service = (d : W) → I d → (is_ok (service d).0 ≡ true) × I (service d).1

-- an error of a snapshot is a `MarketDataError`
abbrev pub is_soft : {A : Type 0} → Result A → Bool
is_soft (ok a) = true
is_soft (err e) = is_market_data_error e

module _ {F W : Type 0} (I : W → Type 0) where
  abbrev pub Succeeds : {A : Type 0} → Exec F W A → Type 0
  Succeeds m = (w : World F W) → I w.outside → (is_ok (m w).0 ≡ true) × I (m w).1.outside

  pub Succeeds-call :
      {A : Type 0} (c : Call F) (service : Service W A)
      → Serves I service
      → Succeeds (call c service)
  unfolding call
  Succeeds-call c service h w i = h w.outside i

  continue-Succeeds :
      {A B : Type 0} (r : Result A) (f : A → Exec F W B) (w : World F W)
      → ((a : A) → Succeeds (f a))
      → is_ok r ≡ true
      → I w.outside
      → (is_ok (continue r f w).0 ≡ true) × I (continue r f w).1.outside
  continue-Succeeds (ok a) f w h fine i = h a w i
  continue-Succeeds (err e) f w h fine i = cc

  pub Succeeds-bind :
      {A B : Type 0} (m : Exec F W A) (f : A → Exec F W B)
      → Succeeds m
      → ((a : A) → Succeeds (f a))
      → Succeeds (m >>= f)
  Succeeds-bind m f hm hf w i =
      let (fine, after) = hm w i in continue-Succeeds (m w).0 f (m w).1 hf fine after

-- What a tick asks of the services beside the processing of the symbols.
pub record IsSteady {F W : Type 0} (s : Services F W) (I : W → Type 0) : Type 0 where
  pub lawful : IsLawful s I
  pub requires : Serves I s.market_requirements
  pub accounts : Serves I s.get_account_state
  pub snapshots : (t : Time) (state : AccountState F) → Serves I (s.save_snapshot t state)
  pub markets :
      (symbols : List String) (spec : BarSpec) (d : W)
      → I d
      → (is_soft (s.get_snapshot symbols spec d).0 ≡ true) × I (s.get_snapshot symbols spec d).1

module _ {F W : Type 0} (s : Services F W) (I : W → Type 0) (steady : IsSteady s I) where
  Succeeds-trade :
      (symbols : List String) (snapshot : MarketSnapshot F) → Succeeds I (trade s symbols snapshot)
  unfolding trade
  Succeeds-trade symbols snapshot =
      Succeeds-bind I (call Call.asked_account s.get_account_state) _
        (Succeeds-call I Call.asked_account s.get_account_state steady.accounts)
        (λ state.
          Succeeds-bind I
            (call (Call.saved_snapshot snapshot.as_of state) (s.save_snapshot snapshot.as_of state))
            _ (Succeeds-call I _ _ (steady.snapshots snapshot.as_of state))
            (λ _ w i. (
              ap is_ok (process_symbols_total s symbols snapshot state w),
              Keeps-process_symbols s I steady.lawful symbols snapshot state w i,
            )))

  -- a snapshot that is taken, or that is given up
  after_snapshot :
      (r : Result (MarketSnapshot F)) (w : World F W)
      → is_soft r ≡ true
      → I w.outside
      → (let (tried, w1) = continue {W = W} r (λ snapshot. pure (some snapshot)) w in
          (is_ok (handle is_market_data_error none tried w1).0 ≡ true)
          × I (handle is_market_data_error none tried w1).1.outside)
  after_snapshot (ok snapshot) w soft i = (refl, i)
  after_snapshot (err e) w soft i = rw soft (refl, i)

  Succeeds-snapshot_or_abort :
      (symbols : List String) (requirements : MarketDataRequirements)
      → Succeeds I (snapshot_or_abort s symbols requirements)
  unfolding snapshot_or_abort try call
  Succeeds-snapshot_or_abort symbols requirements w i =
      let requested = dedupe (symbols ++ sort_by string_le requirements.context_symbols) in
      let (soft, after) = steady.markets requested requirements.bars w.outside i in
      after_snapshot (s.get_snapshot requested requirements.bars w.outside).0
        (record w {
          outside = (s.get_snapshot requested requirements.bars w.outside).1;
          calls = Call.asked_snapshot ∷ w.calls;
        })
        soft after

  Succeeds-trade_or_abort :
      (symbols : List String) (fetched : Option (MarketSnapshot F))
      → Succeeds I (trade_or_abort s symbols fetched)
  unfolding trade_or_abort
  Succeeds-trade_or_abort symbols none = λ w i. (refl, i)
  Succeeds-trade_or_abort symbols (some snapshot) = Succeeds-trade symbols snapshot

  -- a tick succeeds where its reconciliation does
  pub Succeeds-tick :
      (symbols : List String) → Succeeds I (reconcile_fills s) → Succeeds I (tick s symbols)
  unfolding tick
  Succeeds-tick symbols reconciles = Succeeds-bind I (reconcile_fills s) _ reconciles (λ _.
      Succeeds-bind I (call Call.asked_requirements s.market_requirements) _
        (Succeeds-call I _ _ steady.requires)
        (λ requirements.
          Succeeds-bind I (snapshot_or_abort s symbols requirements) _
            (Succeeds-snapshot_or_abort symbols requirements) (Succeeds-trade_or_abort symbols)))
