-- ===== src/Engine/Scheduler/Survives.antt =====
-- engine/scheduler.py: the exceptions of a tick and of the clock.
use carcharoth.Base.{ℕ, suc, String, List, [], ◌∷◌, Bool, true, false, length, ◌≡◌, refl, ap, ◌∙◌}
use carcharoth.Base.Float.{Float}
use carcharoth.Base.Result.{Result, ok, err}
use carcharoth.Engine.Effects.{World, Exec, pure, continue, ◌>>=◌, handle, try}
use carcharoth.Engine.Services.{Services}
use carcharoth.Engine.Tick.{any_error}
use carcharoth.Engine.Scheduler.{Clock, run_once, run_forever}

-- the rounds that come before the stop
abbrev pub rounds : List Bool → ℕ
rounds [] = 0
rounds (true ∷ stops) = 0
rounds (false ∷ stops) = suc (rounds stops)

module _ {F W : Type 0} where
  -- a bind whose two parts return
  bind-returns :
      {A B : Type 0} (m : Exec F W A) (f : A → Exec F W B) (w : World F W) (a : A) (b : B)
      → (m w).0 ≡ ok a
      → (f a (m w).1).0 ≡ ok b
      → ((m >>= f) w).0 ≡ ok b
  bind-returns m f w a b e last = ap (λ r. (continue r f (m w).1).0) e ∙ last

  try-returns :
      {A : Type 0} (m : Exec F W A) (a : A) (w : World F W)
      → (v : A) × ((try m any_error a w).0 ≡ ok v)
  unfolding try
  try-returns {A} m a w = go (m w).0
    where
      go : (r : Result A) → (v : A) × ((handle any_error a r (m w).1).0 ≡ ok v)
      go (ok v) = (v, refl)
      go (err e) = (a, refl)

module _ {F W : Type 0} ⦃num : Float F⦄ (s : Services F W) (clock : Clock F W)
    (symbols : List String) (interval : F) where
  run_once-returns :
      (w : World F W) → (wait : F) × ((run_once s clock symbols interval w).0 ≡ ok wait)
  unfolding run_once
  run_once-returns = try-returns _ interval

  -- Whatever the market clock and the ticks raise, the scheduler goes on until it is told to stop: it
  -- does not raise, and waits once for each time that it has found the stop not set.
  pub run_forever_survives :
      (stops : List Bool) (w : World F W)
      → (waits : List F) × ((run_forever s clock symbols interval stops w).0 ≡ ok waits)
        × (length waits ≡ rounds stops)
  unfolding run_forever
  run_forever_survives [] w = ([], refl, refl)
  run_forever_survives (true ∷ stops) w = ([], refl, refl)
  run_forever_survives (false ∷ stops) w =
      let (wait, e) = run_once-returns w in
      let w1 = (run_once s clock symbols interval w).1 in
      let (waits, later, count) = run_forever_survives stops w1 in
      (
        wait ∷ waits,
        bind-returns (run_once s clock symbols interval)
            (λ wait. run_forever s clock symbols interval stops >>= λ waits. pure (wait ∷ waits)) w
            wait (wait ∷ waits) e
            (bind-returns (run_forever s clock symbols interval stops)
              (λ waits. pure (wait ∷ waits)) w1 waits (wait ∷ waits) later refl),
        ap suc count,
      )
