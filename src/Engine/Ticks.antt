-- ===== src/Engine/Ticks.antt =====
-- engine/engine.py: the orders of a whole tick.
use carcharoth.Base.{
  Bool-cases, ap, ◌++◌, String, List, [], ◌∷◌, Option, none, some, arith, ◌≡◌, ◌⊎◌, inl, inr, ◌∙◌,
  refl, sym, subst,
}
use carcharoth.Base.Result.{Result, ok, err}
use carcharoth.Domain.{MarketSnapshot, AccountState, MarketDataRequirements}
use carcharoth.Engine.Effects.{Call, World, Exec, call, pure, continue, ◌>>=◌, ◌>>◌, handle, try}
use carcharoth.Engine.Services.{Services}
use carcharoth.Engine.Tick.{
  any_error, is_market_data_error, process_symbol, process_symbols, trade, snapshot_or_abort,
  trade_or_abort, reconcile_fills, tick,
}
use carcharoth.Engine.Reconcile.{Quiet-reconcile_fills}
use carcharoth.Base.Eq.{string_eq}
use carcharoth.Base.Sort.{dedupe, sort_by, string_le}
use carcharoth.Engine.Quiet.{submits, Quiet, Quiet-call, Quiet-bind, Quiet-try}
use carcharoth.Engine.Submits.{AtMostOne}
use carcharoth.Engine.Orders.{answered, IsJustified, process_symbol_submits}

module _ {F W : Type 0} (s : Services F W) (snapshot : MarketSnapshot F)
    (state : AccountState F) where
  -- The symbols are processed in order from the first world to the second, each from the world that
  -- the one before it leaves, with at most one order, and that one justified.
  pub data Runs : List String → World F W → World F W → Type 0 where
    done : {w : World F W} → Runs [] w w
    goes :
        {symbol : String} {symbols : List String} {w w' : World F W}
        → AtMostOne
            (IsJustified s symbol snapshot state w.outside)
            w
            (process_symbol s symbol snapshot state w).1
        → Runs symbols (process_symbol s symbol snapshot state w).1 w'
        → Runs (symbol ∷ symbols) w w'

-- A tick from the world `w` that trades, where each service is asked in the world that the one
-- before it leaves: the symbols run with the snapshot and the account state that it was given.
pub record IsTraded {F W : Type 0} (s : Services F W) (symbols : List String) (w w' : World F W)
    : Type 0 where
  pub reconciled : World F W
  pub reconciles : reconcile_fills s w ≡ (ok tt, reconciled)
  pub requirements : MarketDataRequirements
  pub fetched_in : W
  pub requires : s.market_requirements reconciled.outside ≡ (ok requirements, fetched_in)
  pub snapshot : MarketSnapshot F
  pub read_in : W
  pub fetches :
      s.get_snapshot
        (dedupe (symbols ++ sort_by string_le requirements.context_symbols))
        requirements.bars
        fetched_in
      ≡ (ok snapshot, read_in)
  pub state : AccountState F
  pub saved_in : W
  pub reads : s.get_account_state read_in ≡ (ok state, saved_in)
  pub begun : World F W
  pub saves : s.save_snapshot snapshot.as_of state saved_in ≡ (ok tt, begun.outside)
  pub no_order_yet : submits begun.calls ≡ submits w.calls
  pub runs : Runs s snapshot state symbols begun w'

module _ {F W : Type 0} where
  -- `except Exception` with nothing after it: the rest runs in the world that the body leaves
  try-then :
      {A : Type 0} (m : Exec F W (Unit {0})) (k : Exec F W A) (w : World F W)
      → (try m any_error tt >>= λ _. k) w ≡ k (m w).1
  unfolding try
  try-then {A} m k w = go (m w).0
    where
      go :
          (r : Result (Unit {0}))
          → (let (v, w') = handle {W = W} any_error tt r (m w).1 in
              continue {A = Unit {0}} {B = A} v (λ _. k) w')
            ≡ k (m w).1
      go (ok v) = refl
      go (err e) = refl

  Σ_ok : (p : Result (Unit {0}) × World F W) → p.0 ≡ ok tt → p ≡ (ok tt, p.1)
  Σ_ok p e = ground (arith, e)

module _ {F W : Type 0} (s : Services F W) where
  process_symbols-cons :
      (symbol : String) (symbols : List String) (snapshot : MarketSnapshot F)
      (state : AccountState F) (w : World F W)
      → process_symbols s (symbol ∷ symbols) snapshot state w
        ≡ process_symbols s symbols snapshot state (process_symbol s symbol snapshot state w).1
  unfolding process_symbols
  process_symbols-cons symbol symbols snapshot state w =
      try-then (process_symbol s symbol snapshot state) (process_symbols s symbols snapshot state) w

  pub process_symbols_total :
      (symbols : List String) (snapshot : MarketSnapshot F) (state : AccountState F) (w : World F W)
      → (process_symbols s symbols snapshot state w).0 ≡ ok tt
  process_symbols_total [] snapshot state w = unfold process_symbols in refl
  process_symbols_total (symbol ∷ symbols) snapshot state w =
      rw (process_symbols-cons symbol symbols snapshot state w)
        (process_symbols_total symbols snapshot state (process_symbol s symbol snapshot state w).1)

  -- The loop over the symbols isolates failures: whatever processing one symbol raises, the other
  -- symbols are processed from the world that it left, and the loop itself does not raise.
  pub process_symbols_isolates :
      (symbol : String) (symbols : List String) (snapshot : MarketSnapshot F)
      (state : AccountState F) (w : World F W)
      → process_symbols s (symbol ∷ symbols) snapshot state w ≡ (
        ok tt,
        (process_symbols s symbols snapshot state (process_symbol s symbol snapshot state w).1).1,
      )
  process_symbols_isolates symbol symbols snapshot state w =
      process_symbols-cons symbol symbols snapshot state w
      ∙ Σ_ok _ (
          process_symbols_total symbols snapshot state (process_symbol s symbol snapshot state w).1)

  process_symbols-Runs :
      (symbols : List String) (snapshot : MarketSnapshot F) (state : AccountState F) (w : World F W)
      → Runs s snapshot state symbols w (process_symbols s symbols snapshot state w).1
  process_symbols-Runs [] snapshot state w = unfold process_symbols in done
  process_symbols-Runs (symbol ∷ symbols) snapshot state w =
      let w1 = (process_symbol s symbol snapshot state w).1 in
      subst (λ out. Runs s snapshot state (symbol ∷ symbols) w out.1)
        (sym (process_symbols-cons symbol symbols snapshot state w))
        (goes (process_symbol_submits s symbol snapshot state w)
          (process_symbols-Runs symbols snapshot state w1))

  -- nothing is submitted between the two worlds, or `T` holds of the second
  abbrev QuietOr : (World F W → Type 0) → World F W → World F W → Type 0
  QuietOr T w w' = (submits w'.calls ≡ submits w.calls) ⊎ T w'

  QuietOr-bind :
      {A : Type 0} (T : World F W → Type 0) (m : Exec F W A) (f : A → Exec F W (Unit {0}))
      (w : World F W)
      → Quiet m
      → ((a : A) → (m w).0 ≡ ok a → QuietOr T (m w).1 (f a (m w).1).1)
      → QuietOr T w ((m >>= f) w).1
  QuietOr-bind {A} T m f w quiet rest = go (m w).0 rest
    where
      go :
          (r : Result A)
          → ((a : A) → r ≡ ok a → QuietOr T (m w).1 (f a (m w).1).1)
          → QuietOr T w (continue r f (m w).1).1
      go (ok a) h = elim (h a refl) [ inl same ↦ inl (same ∙ quiet w) | inr t ↦ inr t ]
      go (err e) h = inl (quiet w)

  Quiet-snapshot_or_abort :
      (symbols : List String) (requirements : MarketDataRequirements)
      → Quiet (snapshot_or_abort s symbols requirements)
  unfolding snapshot_or_abort
  Quiet-snapshot_or_abort symbols requirements =
      let requested = dedupe (symbols ++ sort_by string_le requirements.context_symbols) in
      Quiet-try
        (call Call.asked_snapshot (s.get_snapshot requested requirements.bars) >>= λ x.
          pure (some x))
        is_market_data_error none
        (Quiet-bind (call Call.asked_snapshot (s.get_snapshot requested requirements.bars))
          (λ x. pure (some x)) (Quiet-call _ _ refl) (λ x w. refl))

  -- a snapshot that is there is the answer of the service
  snapshot_or_abort-some :
      (symbols : List String) (requirements : MarketDataRequirements) (v : World F W)
      (snapshot : MarketSnapshot F)
      → (snapshot_or_abort s symbols requirements v).0 ≡ ok (some snapshot)
      → s.get_snapshot
          (dedupe (symbols ++ sort_by string_le requirements.context_symbols))
          requirements.bars
          v.outside
        ≡ (ok snapshot, (snapshot_or_abort s symbols requirements v).1.outside)
  unfolding snapshot_or_abort try call
  snapshot_or_abort-some symbols requirements v snapshot h =
      go
        (s.get_snapshot (dedupe (symbols ++ sort_by string_le requirements.context_symbols))
          requirements.bars v.outside)
        h
    where
      after : W → World F W
      after x = record { outside = x; calls = Call.asked_snapshot ∷ v.calls }

      caught : Result (MarketSnapshot F) × W → Result (Option (MarketSnapshot F)) × World F W
      caught out =
          let m : Result (Option (MarketSnapshot F)) × World F W =
            continue out.0 (λ x. pure (some x)) (after out.1) in
          handle is_market_data_error none m.0 m.1

      go :
          (out : Result (MarketSnapshot F) × W)
          → (caught out).0 ≡ ok (some snapshot)
          → out ≡ (ok snapshot, (caught out).1.outside)
      go (ok x, y) e = cc (e)
      go (err x, y) e = elim (Bool-cases (is_market_data_error x)) [
        | inl caught_it ↦ absurd (ground (arith, e, caught_it))
        | inr passed_on ↦ absurd (ground (arith, e, passed_on))
      ]

  trade_runs :
      (T : World F W → Type 0) (symbols : List String) (snapshot : MarketSnapshot F) (v : World F W)
      → ((state : AccountState F) (x : W) (begun : World F W)
          → s.get_account_state v.outside ≡ (ok state, x)
          → s.save_snapshot snapshot.as_of state x ≡ (ok tt, begun.outside)
          → submits begun.calls ≡ submits v.calls
          → T (process_symbols s symbols snapshot state begun).1)
      → QuietOr T v (trade s symbols snapshot v).1
  unfolding trade
  trade_runs T symbols snapshot v k =
      let ask : Exec F W (AccountState F) = call Call.asked_account s.get_account_state in
      QuietOr-bind T ask
        (λ state.
          call (Call.saved_snapshot snapshot.as_of state) (s.save_snapshot snapshot.as_of state)
          >> process_symbols s symbols snapshot state)
        v (Quiet-call _ _ refl)
        (λ state read.
          let save : Exec F W (Unit {0}) =
            call (Call.saved_snapshot snapshot.as_of state)
              (s.save_snapshot snapshot.as_of state) in
          QuietOr-bind T save (λ _. process_symbols s symbols snapshot state) (ask v).1
            (Quiet-call _ _ refl)
            (λ _ saved. inr (
              k state (s.get_account_state v.outside).1 (save (ask v).1).1
                (answered (s.get_account_state v.outside) (unfold call in read))
                (unfold call in answered _ (unfold call in saved))
                (Quiet-call _ _ refl (ask v).1 ∙ Quiet-call _ _ refl v))))

  or_abort_runs :
      (T : World F W → Type 0) (symbols : List String) (o : Option (MarketSnapshot F))
      (v : World F W)
      → ((snapshot : MarketSnapshot F)
          → o ≡ some snapshot
          → QuietOr T v (trade s symbols snapshot v).1)
      → QuietOr T v (trade_or_abort s symbols o v).1
  unfolding trade_or_abort
  or_abort_runs T symbols none v k = inl refl
  or_abort_runs T symbols (some snapshot) v k = k snapshot refl

  -- A tick either submits nothing, or trades: each service is asked in the world that the one before
  -- it leaves, and with the snapshot and the account state that the tick was given, the configured
  -- symbols are processed in order, each with at most one order. That order is justified in the world
  -- in which its symbol is processed: the symbol has a quote, the model wants a change, the risk
  -- manager approves just this side and quantity, and the symbol then has no open order.
  pub tick_orders :
      (symbols : List String) (w : World F W)
      → (submits (tick s symbols w).1.calls ≡ submits w.calls)
        ⊎ IsTraded s symbols w (tick s symbols w).1
  unfolding tick
  tick_orders symbols w =
      let T = IsTraded s symbols w in
      let v0 = (reconcile_fills s w).1 in
      let require : Exec F W MarketDataRequirements =
        call Call.asked_requirements s.market_requirements in
      let v1 = (require v0).1 in
      QuietOr-bind T (reconcile_fills s) _ w (Quiet-reconcile_fills s) (λ u reconciles.
        QuietOr-bind T require _ v0 (Quiet-call _ _ refl) (λ requirements required.
          let v2 = (snapshot_or_abort s symbols requirements v1).1 in
          QuietOr-bind T (snapshot_or_abort s symbols requirements) (trade_or_abort s symbols) v1
            (Quiet-snapshot_or_abort symbols requirements)
            (λ o fetched. or_abort_runs T symbols o v2 (λ snapshot there.
              trade_runs T symbols snapshot v2 (λ state x begun reads saves quiet. record {
                reconciled = v0;
                reconciles = answered (reconcile_fills s w) reconciles;
                requirements = requirements;
                fetched_in = v1.outside;
                requires = unfold call in answered _ (unfold call in required);
                snapshot = snapshot;
                read_in = v2.outside;
                fetches =
                    snapshot_or_abort-some symbols requirements v1 snapshot (fetched ∙ ap ok there);
                state = state;
                saved_in = x;
                reads = reads;
                begun = begun;
                saves = saves;
                no_order_yet =
                    quiet
                    ∙ (Quiet-snapshot_or_abort symbols requirements v1
                        ∙ (Quiet-call _ _ refl v0 ∙ Quiet-reconcile_fills s w));
                runs = process_symbols-Runs symbols snapshot state begun;
              })))))
