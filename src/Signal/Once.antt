-- ===== src/Signal/Once.antt =====
-- modeling/signal_generator.py: repeated calls of `generate`.
use carcharoth.Base.{String, Option, ◌≡◌, ◌⊎◌}
use carcharoth.Base.Eq.{nat_eq, string_eq}
use carcharoth.Base.Float.{Float}
use carcharoth.Base.Format.{Format}
use carcharoth.Base.Dict.{Dict}
use carcharoth.Base.Result.{ok}
use carcharoth.Domain.{MarketSnapshot, Position, ExposureIntent, TargetExposure}
use carcharoth.Session.{MarketZone}
use carcharoth.Signal.{Model, Generator, unchanged, generate}

module _ {F W : Type 0} ⦃num : Float F⦄ ⦃fmt : Format F⦄ ⦃zone : MarketZone⦄
    (model : Model F W) where
  -- what a second call finds
  abbrev Second : String → MarketSnapshot F → Option (Position F) → Generator F W → Type 0
  Second symbol snapshot position g =
      (intent : ExposureIntent F) × (generate model symbol snapshot position g ≡ (ok intent, g))
      × ((intent.target ≡ TargetExposure.flat) ⊎ (intent.target ≡ TargetExposure.unchanged))
