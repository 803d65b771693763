-- ===== src/Domain/Enums.antt =====
-- The enumerations of domain/models.py, and the equality tests on them.
use carcharoth.Base.{Bool, true, false, arith, ◌≡◌, ◌↔◌}
use carcharoth.Base.Eq.{Eq}

pub data Side : Type 0 where
  buy sell : Side

pub data RunType : Type 0 where
  paper backtest quicktest : RunType

pub data ModelTask : Type 0 where
  regression classification : ModelTask

pub data TargetExposure : Type 0 where
  long short flat unchanged : TargetExposure

pub data OrderStatus : Type 0 where
  new accepted partially_filled filled canceled rejected expired : OrderStatus

-- `status in TERMINAL_ORDER_STATUSES`
abbrev pub is_terminal : OrderStatus → Bool
is_terminal OrderStatus.filled = true
is_terminal OrderStatus.canceled = true
is_terminal OrderStatus.rejected = true
is_terminal OrderStatus.expired = true
is_terminal _ = false

pub data TimeframeUnit : Type 0 where
  minute day : TimeframeUnit

-- `a is b` on the members of an enumeration
abbrev pub same_side : Side → Side → Bool
same_side Side.buy Side.buy = true
same_side Side.sell Side.sell = true
same_side _ _ = false

abbrev pub same_exposure : TargetExposure → TargetExposure → Bool
same_exposure TargetExposure.long TargetExposure.long = true
same_exposure TargetExposure.short TargetExposure.short = true
same_exposure TargetExposure.flat TargetExposure.flat = true
same_exposure TargetExposure.unchanged TargetExposure.unchanged = true
same_exposure _ _ = false

pub same_exposure_iff : (a b : TargetExposure) → (same_exposure a b ≡ true) ↔ (a ≡ b)
same_exposure_iff a b = (λ h. ground arith, λ h. ground arith)

instance abbrev pub exposure_eq : Eq TargetExposure
exposure_eq = record { beq = same_exposure; beq_iff = same_exposure_iff }

abbrev pub is_accepted : OrderStatus → Bool
is_accepted OrderStatus.accepted = true
is_accepted _ = false

abbrev pub is_filled : OrderStatus → Bool
is_filled OrderStatus.filled = true
is_filled _ = false
