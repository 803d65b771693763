-- ===== src/Engine/Scheduler.antt =====
-- engine/scheduler.py: ticks while the market is open, and waits between them.
pub mod Survives
use carcharoth.Base.{List, [], ◌∷◌, Bool, true, false, ◌≡◌, refl, if◌then◌else◌, String}
use carcharoth.Base.Int.{pos}
use carcharoth.Base.Float.{Float, ◌⊖◌, one, fmin, fmax}
use carcharoth.Base.Result.{Error, Result, ok, err}
use carcharoth.Engine.Effects.{World, Exec, Service, pure, continue, ◌>>=◌, ◌>>◌, handle, try}
use carcharoth.Engine.Services.{Services}
use carcharoth.Engine.Tick.{any_error, tick}

-- `MarketClock`, and the wall clock: `time.time() % interval`
pub record Clock (F W : Type 0) : Type 0 where
  pub is_open : Service W Bool
  pub seconds_until_open : Service W F
  pub seconds_past_interval : Service W F

-- a service that leaves no mark in the calls
abbrev pub ask : {F W A : Type 0} → Service W A → Exec F W A
ask service w = let (r, outside) = service w.outside in (r, record w { outside = outside })

module _ {F W : Type 0} ⦃num : Float F⦄ (s : Services F W) (clock : Clock F W)
    (symbols : List String) (interval : F) where
  -- `_MAX_CLOSED_WAIT_SECONDS`
  abbrev max_closed_wait : F
  max_closed_wait = num.of_int (pos 300)

  -- `_seconds_to_next_interval`
  unfoldable pub seconds_to_next_interval : Exec F W F
  seconds_to_next_interval =
      ask clock.seconds_past_interval >>= λ past. pure (fmax one (interval ⊖ past))

  -- the market is closed
  unfoldable pub closed_wait : Exec F W F
  closed_wait =
      ask clock.seconds_until_open >>= λ until_open. pure (fmin until_open max_closed_wait)

  -- the market is open: `_run_tick`, then the rest of the interval
  unfoldable pub open_wait : Exec F W F
  unfolding tick seconds_to_next_interval
  open_wait = tick s symbols >> seconds_to_next_interval

  -- the `try` of `run_forever`: the seconds to wait, the interval after an exception
  unfoldable pub run_once : Exec F W F
  unfolding closed_wait open_wait
  run_once =
      try (ask clock.is_open >>= λ is_open. (if is_open then open_wait else closed_wait)) any_error
        interval

  -- `run_forever`, over what `stop_event.is_set()` answers each time; it ends at `true`, or where the
  -- answers end. The waits are the result.
  unfoldable pub run_forever : List Bool → Exec F W (List F)
  unfolding run_once
  run_forever [] = pure []
  run_forever (true ∷ stops) = pure []
  run_forever (false ∷ stops) =
      run_once >>= λ wait. run_forever stops >>= λ waits. pure (wait ∷ waits)
