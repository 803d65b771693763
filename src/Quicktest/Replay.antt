-- ===== src/Quicktest/Replay.antt =====
-- quicktest/simulator.py: what a simulation of more bars shares with one of fewer, and what it
-- records for each bar.
use carcharoth.Base.{
  String, List, [], ◌∷◌, ◌++◌, Option, none, some, map, arith, ◌≡◌, ◌∙◌, refl, sym, ap, subst, keep,
  Bool-cases, inl, inr, if◌then◌else◌,
}
use mathlib.Core.List.{append-nil, append_assoc, map-append}
use carcharoth.Base.Float.{Float}
use carcharoth.Base.Result.{Result, ok, err, ◌>>=◌, >>=-eq-ok, ok-inj}
use carcharoth.Domain.{Time, Bar, Side, same_side, EquityPoint}
use carcharoth.Session.{MarketZone}
use carcharoth.Quicktest.{
  SymbolResult, Sim, Run, next_holding, open_fill_price, snapshot_at, position_at,
  SimulationSettings, fill, fill_at_open, sample, ask_and_plan, is_simulated, simulate_bar,
  simulate_bars, simulate_symbol, initial_sim,
}

-- What was recorded stays, and more may follow.
abbrev pub Grows {ℓ} : {A : Type ℓ} → List A → List A → Type ℓ
Grows {A} xs ys = (more : List A) × (ys ≡ xs ++ more)

Grows-refl {ℓ} : {A : Type ℓ} (xs : List A) → Grows xs xs
Grows-refl xs = ([], sym (append-nil xs))

Grows-trans {ℓ} : {A : Type ℓ} (xs ys zs : List A) → Grows xs ys → Grows ys zs → Grows xs zs
Grows-trans xs ys zs (a, e) (b, f) = (a ++ b, f ∙ ap (λ l. l ++ b) e ∙ append_assoc xs a b)

abbrev pub time_of : {F : Type 0} → EquityPoint F → Time
time_of p = p.timestamp

abbrev pub bar_time : {F : Type 0} → Bar F → Time
bar_time bar = bar.timestamp

-- Each list of the earlier result is an initial part of the later one's.
pub record Continues {F : Type 0} (r r' : SymbolResult F) : Type 0 where
  pub trades : Grows r.trades r'.trades
  pub equity : Grows r.equity r'.equity
  pub cash : Grows r.cash r'.cash
  pub snapshots : Grows r.snapshots r'.snapshots

module _ {F : Type 0} where
  Continues-refl : (r : SymbolResult F) → Continues r r
  Continues-refl r = record {
    trades = Grows-refl r.trades;
    equity = Grows-refl r.equity;
    cash = Grows-refl r.cash;
    snapshots = Grows-refl r.snapshots;
  }

  Continues-trans : (r s t : SymbolResult F) → Continues r s → Continues s t → Continues r t
  Continues-trans r s t a b = record {
    trades = Grows-trans r.trades s.trades t.trades a.trades b.trades;
    equity = Grows-trans r.equity s.equity t.equity a.equity b.equity;
    cash = Grows-trans r.cash s.cash t.cash a.cash b.cash;
    snapshots = Grows-trans r.snapshots s.snapshots t.snapshots a.snapshots b.snapshots;
  }

module _ {F W : Type 0} ⦃num : Float F⦄ where
  -- the equity is sampled by the loop's body alone
  abbrev Trades : Sim F W → Sim F W → Type 0
  Trades s s' = Continues s.result s'.result × (s'.result.equity ≡ s.result.equity)

  fill-Trades :
      (symbol : String) (side : Side) (qty price : F) (t : Time) (s s' : Sim F W)
      → fill symbol side qty price t s ≡ ok s'
      → Trades s s'
  unfolding fill
  fill-Trades symbol side qty price t s s' e =
      let (h, eh, last) =
        >>=-eq-ok
          (next_holding s.holding (if same_side side Side.buy then qty else num.neg qty) price) _
          e in
      subst (Trades s) (ok-inj last) (
        record {
          trades = (_, refl);
          equity = Grows-refl _;
          cash = Grows-refl _;
          snapshots = Grows-refl _;
        },
        refl,
      )

  fill_at_open-Trades :
      (symbol : String) (bar : Bar F) (settings : SimulationSettings F) (p : Option (Side × F))
      (s s' : Sim F W)
      → fill_at_open symbol bar settings p s ≡ ok s'
      → Trades s s'
  unfolding fill_at_open
  fill_at_open-Trades symbol bar settings none s s' e =
      subst (Trades s) (ok-inj e) (Continues-refl s.result, refl)
  fill_at_open-Trades symbol bar settings (some (side, qty)) s s' e =
      let (f, ef, last) =
        >>=-eq-ok
          (fill symbol side qty (open_fill_price side bar.open_price settings) bar.timestamp s) _
          e in
      subst (Trades s) (ok-inj last) (fill-Trades symbol side qty _ bar.timestamp s f ef)

module _ {F W : Type 0} ⦃num : Float F⦄ ⦃zone : MarketZone⦄ (run : Run F W) where
  -- one bar adds one point, at its time
  abbrev Samples : Bar F → Sim F W → Sim F W → Type 0
  Samples bar s s' =
      Continues s.result s'.result
      × (map time_of s'.result.equity ≡ map time_of s.result.equity ++ (bar.timestamp ∷ []))

  ask_and_plan-Samples :
      (before : List (Bar F)) (bar : Bar F) (s s' : Sim F W)
      → ask_and_plan run before bar s ≡ ok s'
      → Samples bar s s'
  unfolding ask_and_plan sample
  ask_and_plan-Samples before bar s s' e =
      let (intent, ei, last) =
        >>=-eq-ok
          (run.generate run.symbol (snapshot_at run before bar)
            (position_at run.symbol bar.close s.holding) s.model).0
          _ e in
      subst (Samples bar s) (ok-inj last) (
        record {
          trades = Grows-refl _;
          equity = (_, refl);
          cash = (_, refl);
          snapshots = (_, refl);
        },
        map-append time_of s.result.equity _,
      )

  -- what one bar adds, at a bar outside the window nothing
  abbrev Records : Bar F → Sim F W → Sim F W → Type 0
  Records bar s s' =
      Continues s.result s'.result
      × (map time_of s'.result.equity
          ≡ map time_of s.result.equity ++ map bar_time (keep (is_simulated run) (bar ∷ [])))

  simulate_bar-Records :
      (before : List (Bar F)) (bar : Bar F) (s s' : Sim F W)
      → simulate_bar run before bar s ≡ ok s'
      → Records bar s s'
  unfolding simulate_bar keep
  simulate_bar-Records before bar s s' e = elim (Bool-cases (is_simulated run bar)) [
    | inl inside ↦
        let runs : (fill_at_open run.symbol bar run.settings s.pending s
              >>= ask_and_plan run before bar)
            ≡ ok s' =
          ground (arith, e, inside) in
        let (f, ef, asked) =
          >>=-eq-ok (fill_at_open run.symbol bar run.settings s.pending s) _ runs in
        let (c, same) = fill_at_open-Trades run.symbol bar run.settings s.pending s f ef in
        let (d, more) = ask_and_plan-Samples before bar f s' asked in
        (
          Continues-trans _ _ _ c d,
          rw inside (more ∙ ap (λ l. map time_of l ++ (bar.timestamp ∷ [])) same),
        )
    | inr outside ↦
        let same : s ≡ s' = ground (arith, e, outside) in
        subst (Records bar s) same
          (Continues-refl s.result, rw outside (sym (append-nil (map time_of s.result.equity))))
  ]

  times-cons :
      (bar : Bar F) (bars : List (Bar F))
      → map bar_time (keep (is_simulated run) (bar ∷ []))
          ++ map bar_time (keep (is_simulated run) bars)
        ≡ map bar_time (keep (is_simulated run) (bar ∷ bars))
  unfolding keep
  times-cons bar bars = elim (Bool-cases (is_simulated run bar)) [
    | inl inside ↦ rw inside refl
    | inr outside ↦ rw outside refl
  ]

  simulate_bars-Records :
      (before bars : List (Bar F)) (s s' : Sim F W)
      → simulate_bars run before bars s ≡ ok s'
      → Continues s.result s'.result
        × (map time_of s'.result.equity
            ≡ map time_of s.result.equity ++ map bar_time (keep (is_simulated run) bars))
  unfolding simulate_bars
  simulate_bars-Records before [] s s' e =
      subst
        (λ (x : Sim F W).
          Continues s.result x.result
          × (map time_of x.result.equity ≡ map time_of s.result.equity ++ []))
        (ok-inj e) (Continues-refl s.result, sym (append-nil (map time_of s.result.equity)))
  simulate_bars-Records before (bar ∷ bars) s s' e =
      let (t, et, later) = >>=-eq-ok (simulate_bar run before bar s) _ e in
      let (c, first) = simulate_bar-Records before bar s t et in
      let (d, more) = simulate_bars-Records (before ++ (bar ∷ [])) bars t s' later in
      (
        Continues-trans _ _ _ c d,
        more
            ∙ ap (λ l. l ++ map bar_time (keep (is_simulated run) bars)) first
            ∙ append_assoc (map time_of s.result.equity)
                (map bar_time (keep (is_simulated run) (bar ∷ [])))
                (map bar_time (keep (is_simulated run) bars))
            ∙ ap (λ l. map time_of s.result.equity ++ l) (times-cons bar bars),
      )

  simulate_bars-append :
      (before xs ys : List (Bar F)) (s : Sim F W)
      → simulate_bars run before (xs ++ ys) s
        ≡ (simulate_bars run before xs s >>= simulate_bars run (before ++ xs) ys)
  unfolding simulate_bars
  simulate_bars-append before [] ys s = ap (λ l. simulate_bars run l ys s) (sym (append-nil before))
  simulate_bars-append before (x ∷ xs) ys s =
      go (simulate_bar run before x s) (λ t. simulate_bars-append (before ++ (x ∷ [])) xs ys t)
    where
      go :
          (r : Result (Sim F W))
          → ((t : Sim F W)
              → simulate_bars run (before ++ (x ∷ [])) (xs ++ ys) t ≡ (
                  simulate_bars run (before ++ (x ∷ [])) xs t
                  >>= simulate_bars run ((before ++ (x ∷ [])) ++ xs) ys))
          → (r >>= simulate_bars run (before ++ (x ∷ [])) (xs ++ ys)) ≡ (
              (r >>= simulate_bars run (before ++ (x ∷ [])) xs)
              >>= simulate_bars run (before ++ (x ∷ xs)) ys)
      go (err e) rest = refl
      go (ok t) rest =
          rest t
          ∙ ap (λ l. simulate_bars run (before ++ (x ∷ [])) xs t >>= simulate_bars run l ys)
              (append_assoc before (x ∷ []) xs)

  -- Where a simulation over more bars succeeds, the one over the
  -- first of them does, and its trades, equity and cash points and position snapshots are the first
  -- ones of the longer simulation.
  pub simulate_symbol-Continues :
      (bars more : List (Bar F)) (model : W) (r : SymbolResult F)
      → simulate_symbol run (bars ++ more) model ≡ ok r
      → (r0 : SymbolResult F) × (simulate_symbol run bars model ≡ ok r0) × Continues r0 r
  unfolding simulate_symbol
  simulate_symbol-Continues bars more model r e =
      let (s, es, last) =
        >>=-eq-ok (simulate_bars run [] (bars ++ more) (initial_sim run model)) _ e in
      let (t, et, rest) =
        >>=-eq-ok (simulate_bars run [] bars (initial_sim run model)) (simulate_bars run bars more)
          (sym (simulate_bars-append [] bars more (initial_sim run model)) ∙ es) in
      let (c, times) = simulate_bars-Records bars more t s rest in
      (t.result, ap (λ x. x >>= λ s. ok s.result) et, subst (Continues t.result) (ok-inj last) c)

  -- A simulation that succeeds has one equity point for each bar of the regular session in its
  -- window, at the time of the bar and in the order of the bars, and no other.
  pub simulate_symbol_samples :
      (bars : List (Bar F)) (model : W) (r : SymbolResult F)
      → simulate_symbol run bars model ≡ ok r
      → map time_of r.equity ≡ map bar_time (keep (is_simulated run) bars)
  unfolding simulate_symbol initial_sim
  simulate_symbol_samples bars model r e =
      let (s, es, last) = >>=-eq-ok (simulate_bars run [] bars (initial_sim run model)) _ e in
      let (c, times) = simulate_bars-Records [] bars (initial_sim run model) s es in
      subst
        (λ (r : SymbolResult F). map time_of r.equity ≡ map bar_time (keep (is_simulated run) bars))
        (ok-inj last) times
