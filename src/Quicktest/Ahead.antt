-- ===== src/Quicktest/Ahead.antt =====
-- quicktest/simulator.py: what the model is shown of the benchmark, and of the bars.
use carcharoth.Base.{
  List, [], ◌∷◌, ◌++◌, Bool, false, leb, keep, All, ◌≡◌, ◌∙◌, refl, sym, ap, if◌then◌else◌,
}
use carcharoth.Base.Eq.{◌==◌, string_eq}
use carcharoth.Base.Float.{Float}
use carcharoth.Base.Result.{Result, ok, err, ◌>>=◌}
use carcharoth.Domain.{Bar}
use carcharoth.Session.{MarketZone}
use carcharoth.Quicktest.{
  SymbolResult, Sim, Run, take_last, context_bars, snapshot_at, ask_and_plan, fill_at_open,
  is_simulated, simulate_bar, simulate_bars, simulate_symbol, initial_sim,
}
use carcharoth.Quicktest.Replay.{Continues, simulate_symbol-Continues}

keep-none {ℓ} :
    {A : Type ℓ} (p : A → Bool) (xs ys : List A)
    → All (λ y. p y ≡ false) ys
    → keep p (xs ++ ys) ≡ keep p xs
unfolding keep
keep-none p [] [] fails = refl
keep-none p [] (y ∷ ys) fails = rw (fails.0) (keep-none p [] ys fails.1)
keep-none p (x ∷ xs) ys fails = ap (λ l. if p x then x ∷ l else l) (keep-none p xs ys fails)

-- each of the second bars is later than each of the first ones
abbrev pub AreLater : {F : Type 0} → List (Bar F) → List (Bar F) → Type 0
AreLater bars later = All (λ bar. All (λ c. leb c.timestamp bar.timestamp ≡ false) later) bars

module _ {F W : Type 0} ⦃num : Float F⦄ ⦃zone : MarketZone⦄ (run : Run F W)
    (later : List (Bar F)) where
  -- the run with more bars of the benchmark
  abbrev pub longer : Run F W
  longer = record run { benchmark = run.benchmark ++ later }

  context_bars-longer :
      (bar : Bar F)
      → All (λ c. leb c.timestamp bar.timestamp ≡ false) later
      → context_bars longer bar ≡ context_bars run bar
  unfolding context_bars
  context_bars-longer bar late =
      ap
        (λ shown.
          if run.context_symbol == run.symbol
          then []
          else (run.context_symbol, take_last run.lookback shown) ∷ [])
        (keep-none (λ c. leb c.timestamp bar.timestamp) run.benchmark later late)

  snapshot_at-longer :
      (before : List (Bar F)) (bar : Bar F)
      → All (λ c. leb c.timestamp bar.timestamp ≡ false) later
      → snapshot_at longer before bar ≡ snapshot_at run before bar
  unfolding snapshot_at
  snapshot_at-longer before bar late = rw (context_bars-longer bar late) refl

  ask_and_plan-longer :
      (before : List (Bar F)) (bar : Bar F) (s : Sim F W)
      → All (λ c. leb c.timestamp bar.timestamp ≡ false) later
      → ask_and_plan longer before bar s ≡ ask_and_plan run before bar s
  unfolding ask_and_plan
  ask_and_plan-longer before bar s late = rw (snapshot_at-longer before bar late) refl

  simulate_bar-longer :
      (before : List (Bar F)) (bar : Bar F) (s : Sim F W)
      → All (λ c. leb c.timestamp bar.timestamp ≡ false) later
      → simulate_bar longer before bar s ≡ simulate_bar run before bar s
  unfolding simulate_bar is_simulated
  simulate_bar-longer before bar s late =
      ap (λ m. if is_simulated run bar then m else ok s)
        (go (fill_at_open run.symbol bar run.settings s.pending s))
    where
      go :
          (r : Result (Sim F W))
          → (r >>= ask_and_plan longer before bar) ≡ (r >>= ask_and_plan run before bar)
      go (err e) = refl
      go (ok t) = ask_and_plan-longer before bar t late

  simulate_bars-longer :
      (before bars : List (Bar F)) (s : Sim F W)
      → AreLater bars later
      → simulate_bars longer before bars s ≡ simulate_bars run before bars s
  unfolding simulate_bars
  simulate_bars-longer before [] s late = refl
  simulate_bars-longer before (bar ∷ bars) s late = rw (simulate_bar-longer before bar s late.0) (
      go (simulate_bar run before bar s)
        (λ t. simulate_bars-longer (before ++ (bar ∷ [])) bars t late.1))
    where
      go :
          (r : Result (Sim F W))
          → ((t : Sim F W)
              → simulate_bars longer (before ++ (bar ∷ [])) bars t
                ≡ simulate_bars run (before ++ (bar ∷ [])) bars t)
          → (r >>= simulate_bars longer (before ++ (bar ∷ [])) bars)
            ≡ (r >>= simulate_bars run (before ++ (bar ∷ [])) bars)
      go (err e) rest = refl
      go (ok t) rest = rest t

  -- The simulator looks at no later bar, of the symbol or of the benchmark: where a simulation over
  -- more bars of the symbol, and with bars of the benchmark that are later than the first ones of the
  -- symbol, succeeds, the one over those first bars and without those of the benchmark does, and its
  -- trades, equity and cash points and position snapshots are the first ones of the longer
  -- simulation.
  pub simulate_symbol_looks_back :
      (bars more : List (Bar F)) (model : W) (r : SymbolResult F)
      → AreLater bars later
      → simulate_symbol longer (bars ++ more) model ≡ ok r
      → (r0 : SymbolResult F) × (simulate_symbol run bars model ≡ ok r0) × Continues r0 r
  unfolding simulate_symbol initial_sim
  simulate_symbol_looks_back bars more model r late e =
      let (r0, e0, c) = simulate_symbol-Continues longer bars more model r e in
      let same =
        ap (λ out. out >>= λ s. ok s.result)
          (simulate_bars-longer [] bars (initial_sim run model) late) in
      (r0, sym same ∙ e0, c)
