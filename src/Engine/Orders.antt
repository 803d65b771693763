-- ===== src/Engine/Orders.antt =====
-- engine/engine.py: the orders of one symbol in a tick.
use carcharoth.Base.{
  arith, String, [], Bool, true, false, Option, none, some, ◌≡◌, ◌≢◌, inl, inr, refl, if◌then◌else◌,
}
use carcharoth.Base.Eq.{string_eq}
use carcharoth.Base.Dict.{get}
use carcharoth.Base.Result.{Result, ok}
use carcharoth.Domain.{
  OrderRequest, MarketSnapshot, AccountState, ExposureIntent, RiskDecision, Quote, TargetExposure,
  Time, same_exposure, same_exposure_iff,
}
use carcharoth.Engine.Effects.{Call, World, call, ◌>>◌}
use carcharoth.Engine.Services.{Services}
use carcharoth.Engine.Tick.{execute_decision, assess_and_execute, act_on_intent, process_symbol}
use carcharoth.Engine.Quiet.{Quiet-call}
use carcharoth.Engine.Submits.{AtMostOne, Quiet-first, Executes, execute_decision_submits}

-- an answer, with the world that it leaves
pub answered : {A W : Type 0} (out : Result A × W) {a : A} → out.0 ≡ ok a → out ≡ (ok a, out.1)
answered out e = ground (arith, e)

module _ {F W : Type 0} (s : Services F W) where
  -- What must have happened for an order to be submitted for a symbol that is processed in the world
  -- `asked_in`, where each service is asked in the world that the one before it leaves: the symbol has
  -- a quote; the model answers with a target other than UNCHANGED; the risk manager approves with the
  -- order's side and quantity; the decision is saved; and the symbol then has no open order.
  pub record IsJustified (symbol : String) (snapshot : MarketSnapshot F) (state : AccountState F)
      (asked_in : W) (q : OrderRequest F) : Type 0 where
    pub for_symbol : q.symbol ≡ symbol
    pub quote : Quote F
    pub quoted : get snapshot.quotes symbol ≡ some quote
    pub intent : ExposureIntent F
    pub assessed_in : W
    pub model_asked :
        s.generate symbol snapshot (get state.positions symbol) asked_in ≡ (ok intent, assessed_in)
    pub wants_change : intent.target ≢ TargetExposure.unchanged
    pub decision : RiskDecision F
    pub saved_in : W
    pub risk_asked : s.assess intent state quote assessed_in ≡ (ok decision, saved_in)
    pub approved : decision.approved ≡ true
    pub side : decision.side ≡ some q.side
    pub qty : decision.qty ≡ q.qty
    pub listed_in : W
    pub saved : s.save_decision intent (some decision) snapshot.as_of saved_in ≡ (ok tt, listed_in)
    pub no_conflict : (s.find_open_orders symbol listed_in).0 ≡ ok []

  -- what the risk manager's answer gives
  abbrev Approves :
      String → ExposureIntent F → AccountState F → Quote F → Time → W → OrderRequest F → Type 0
  Approves symbol intent state quote time x q =
      (d : RiskDecision F) × ((s.assess intent state quote x).0 ≡ ok d)
      × ((s.save_decision intent (some d) time (s.assess intent state quote x).1).0 ≡ ok tt)
      × Executes s symbol d
          (s.save_decision intent (some d) time (s.assess intent state quote x).1).1 q

  assess_submits :
      (symbol : String) (intent : ExposureIntent F) (snapshot : MarketSnapshot F)
      (state : AccountState F) (quote : Quote F) (w : World F W)
      → AtMostOne
          (Approves symbol intent state quote snapshot.as_of w.outside)
          w
          (assess_and_execute s symbol intent snapshot state quote w).1
  unfolding assess_and_execute
  assess_submits symbol intent snapshot state quote w =
      Quiet-first (Approves symbol intent state quote snapshot.as_of w.outside)
        (call (Call.assessed symbol) (s.assess intent state quote))
        (λ d.
          call (Call.saved_decision intent (some d))
            (s.save_decision intent (some d) snapshot.as_of)
          >> execute_decision s symbol d)
        w (Quiet-call _ _ refl)
        (λ d e.
          Quiet-first (Approves symbol intent state quote snapshot.as_of w.outside)
            (call (Call.saved_decision intent (some d))
              (s.save_decision intent (some d) snapshot.as_of))
            (λ _. execute_decision s symbol d) _ (Quiet-call _ _ refl)
            (λ _ saved. elim (execute_decision_submits s symbol d _) [
              | inl same ↦ inl same
              | inr (q, more, x) ↦
                  inr (q, more, (d, unfold call in e, unfold call in saved, unfold call in x))
            ]))

  act_submits :
      (symbol : String) (intent : ExposureIntent F) (snapshot : MarketSnapshot F)
      (state : AccountState F) (o : Option (Quote F)) (w : World F W)
      → AtMostOne
          (λ q.
            (quote : Quote F) × (o ≡ some quote)
            × (intent.target ≢ TargetExposure.unchanged)
            × Approves symbol intent state quote snapshot.as_of w.outside q)
          w
          (act_on_intent s symbol intent snapshot state o w).1
  unfolding act_on_intent
  act_submits symbol intent snapshot state none w = inl (Quiet-call _ _ refl w)
  act_submits symbol intent snapshot state (some quote) w =
      go (same_exposure intent.target TargetExposure.unchanged) refl
    where
      go :
          (b : Bool)
          → same_exposure intent.target TargetExposure.unchanged ≡ b
          → AtMostOne
              (λ q.
                (x : Quote F) × (some quote ≡ some x)
                × (intent.target ≢ TargetExposure.unchanged)
                × Approves symbol intent state x snapshot.as_of w.outside q)
              w
              ((if b
                  then call
                      (Call.saved_decision intent none)
                      (s.save_decision intent none snapshot.as_of)
                  else assess_and_execute s symbol intent snapshot state quote)
                w).1
      go true e = inl (Quiet-call _ _ refl w)
      go false e = elim (assess_submits symbol intent snapshot state quote w) [
        | inl same ↦ inl same
        | inr (q, more, x) ↦ inr (
          q,
          more,
          (
            quote,
            refl,
            (λ u. cc (e, (same_exposure_iff intent.target TargetExposure.unchanged).1 u)),
            x,
          ),
        )
      ]

  -- Processing a symbol submits nothing, or one order that is justified.
  pub process_symbol_submits :
      (symbol : String) (snapshot : MarketSnapshot F) (state : AccountState F) (w : World F W)
      → AtMostOne
          (IsJustified symbol snapshot state w.outside)
          w
          (process_symbol s symbol snapshot state w).1
  unfolding process_symbol
  process_symbol_submits symbol snapshot state w =
      let generates = s.generate symbol snapshot (get state.positions symbol) in
      Quiet-first (IsJustified symbol snapshot state w.outside)
        (call (Call.generated symbol) (s.generate symbol snapshot (get state.positions symbol)))
        (λ intent. act_on_intent s symbol intent snapshot state (get snapshot.quotes symbol)) w
        (Quiet-call _ _ refl)
        (λ intent e.
          elim (act_submits symbol intent snapshot state (get snapshot.quotes symbol) _) [
            | inl same ↦ inl same
            | inr (q, more, (quote, quoted, wants, (d, asked, saved, (sy, ok_, si, qt, cl)))) ↦
                inr (
                  q,
                  more,
                  record {
                    for_symbol = sy;
                    quote = quote;
                    quoted = quoted;
                    intent = intent;
                    assessed_in = (generates w.outside).1;
                    model_asked = answered (generates w.outside) (unfold call in e);
                    wants_change = wants;
                    decision = d;
                    saved_in = (s.assess intent state quote (generates w.outside).1).1;
                    risk_asked = answered _ (unfold call in asked);
                    approved = ok_;
                    side = si;
                    qty = qt;
                    listed_in =
                        (s.save_decision intent (some d) snapshot.as_of
                          (s.assess intent state quote (generates w.outside).1).1).1;
                    saved = answered _ (unfold call in saved);
                    no_conflict = unfold call in cl;
                  },
                )
          ])
