-- ===== src/Broker/Replay.antt =====
-- services/backtest/broker.py: a whole `mark_to_market`.
use carcharoth.Base.{
  String, [], ◌∷◌, Option, none, some, arith, ◌≡◌, ◌≢◌, inl, inr, refl, subst, ◌∙◌,
}
use carcharoth.Base.Eq.{string_eq}
use carcharoth.Base.Float.{Float, IsFloat}
use carcharoth.Base.Dict.{
  Dict, get, IsDict, not-get-empty, get-cons_cases, get-cons_none, get-cons_ne, get-cons_self,
}
use carcharoth.Base.Result.{ok}
use carcharoth.Domain.{OrderRequest, Time, Bar}
use carcharoth.Session.{MarketZone}
use carcharoth.Broker.Account.{Broker, require_time}
use carcharoth.Broker.Fills.{fill_all, fill_pending, mark_to_market, update_closes, roll_session}
use carcharoth.Broker.Invariant.{IsValid, Outcome, fill_order_total}

module _ {F : Type 0} ⦃num : Float F⦄ where
  -- `b'` is `b` once the requests of `todo` have met the bars
  pub record Replays (bars : Dict String (Bar F)) (todo : Dict String (OrderRequest F))
      (b b' : Broker F) : Type 0 where
    pub valid : IsValid b'
    pub outcome :
        (id : String) (r : OrderRequest F)
        → get todo id ≡ some r
        → Outcome (get bars r.symbol) b b' id r
    pub orders_kept : (j : String) → get todo j ≡ none → get b'.orders j ≡ get b.orders j
    pub pending_kept : (j : String) → get todo j ≡ none → get b'.pending j ≡ get b.pending j

  Outcome-later :
      (bar : Option (Bar F)) (b b1 b2 : Broker F) (id : String) (r : OrderRequest F)
      → get b2.orders id ≡ get b1.orders id
      → get b2.pending id ≡ get b1.pending id
      → Outcome bar b b1 id r
      → Outcome bar b b2 id r
  Outcome-later none b b1 b2 id r eo ep h = (ep ∙ h.0, eo ∙ h.1)
  Outcome-later (some bar) b b1 b2 id r eo ep h =
      let (gone, (o, there, final)) = h in (ep ∙ gone, (o, eo ∙ there, final))

  Outcome-earlier :
      (bar : Option (Bar F)) (b b1 b2 : Broker F) (id : String) (r : OrderRequest F)
      → get b1.orders id ≡ get b.orders id
      → Outcome bar b1 b2 id r
      → Outcome bar b b2 id r
  Outcome-earlier none b b1 b2 id r eo h = (h.0, h.1 ∙ eo)
  Outcome-earlier (some bar) b b1 b2 id r eo h = h

module _ {F : Type 0} ⦃num : Float F⦄ (laws : IsFloat F) where
  fill_all_total :
      (bars : Dict String (Bar F)) (as_of : Time) (todo : Dict String (OrderRequest F))
      (b : Broker F)
      → IsValid b
      → IsDict todo
      → ((j : String) (s : OrderRequest F) → get todo j ≡ some s → get b.pending j ≡ some s)
      → (b' : Broker F) × (fill_all bars as_of todo b ≡ ok b') × Replays bars todo b b'
  unfolding fill_all
  fill_all_total bars as_of [] b v dict sub = (
    b,
    refl,
    record {
      valid = v;
      outcome = λ id r h. absurd (not-get-empty id h);
      orders_kept = λ j h. refl;
      pending_kept = λ j h. refl;
    },
  )
  fill_all_total bars as_of ((id, r) ∷ rest) b v dict sub =
      let (b1, e1, one) =
        fill_order_total laws b id r as_of (get bars r.symbol) v
          (sub id r (get-cons_self id r rest)) in
      let (b2, e2, more) = fill_all_total bars as_of rest b1 one.valid dict.1 (λ j s h.
        let ne : id ≢ j = λ e. cc (h, dict.0, e) in
        one.pending_kept j ne ∙ sub j s (get-cons_ne id j r rest ne ∙ h)) in
      (
        b2,
        ground (arith, e1, e2),
        record {
          valid = more.valid;
          outcome = λ j s h. elim (get-cons_cases id j r s rest h) [
            | inl e ↦
                subst (λ k. Outcome (get bars s.symbol) b b2 k s) e.0
                  (subst (λ x. Outcome (get bars x.symbol) b b2 id x) e.1
                    (Outcome-later (get bars r.symbol) b b1 b2 id r (more.orders_kept id dict.0)
                      (more.pending_kept id dict.0) one.outcome))
            | inr (ne, h') ↦
                Outcome-earlier (get bars s.symbol) b b1 b2 j s (one.orders_kept j ne)
                  (more.outcome j s h')
          ];
          orders_kept = λ j h.
              let (ne, h') = get-cons_none id j r rest h in
              more.orders_kept j h' ∙ one.orders_kept j ne;
          pending_kept = λ j h.
              let (ne, h') = get-cons_none id j r rest h in
              more.pending_kept j h' ∙ one.pending_kept j ne;
        },
      )

  fill_pending_total :
      (bars : Dict String (Bar F)) (b : Broker F) (as_of : Time)
      → b.as_of ≡ some as_of
      → IsValid b
      → (b' : Broker F) × (fill_pending bars b ≡ ok b') × Replays bars b.pending b b'
  unfolding fill_pending require_time
  fill_pending_total bars b as_of set v =
      let (b', e, replay) = fill_all_total bars as_of b.pending b v v.book.distinct (λ j s h. h) in
      (b', ground (arith, set, e), replay)

  -- In a valid broker a bar is always accepted, and leaves a valid broker. Every order that was
  -- pending and whose symbol has a bar is terminal now and pending no more; every pending order
  -- whose symbol has none is untouched, and so is every order that was not pending.
  pub mark_to_market-Replays :
      ⦃zone : MarketZone⦄ (as_of : Time) (bars : Dict String (Bar F)) (b : Broker F)
      → IsValid b
      → (b' : Broker F) × (mark_to_market as_of bars b ≡ ok b') × Replays bars b.pending b b'
  unfolding mark_to_market
  mark_to_market-Replays ⦃zone⦄ as_of bars b v =
      let clocked : Broker F = record b {
        last_equity = roll_session b.session_date (zone.local_date as_of) b;
        session_date = some (zone.local_date as_of);
        as_of = some as_of;
      } in
      let (b', e, replay) =
        fill_pending_total bars clocked as_of refl (record { book = v.book; open_ = v.open_ }) in
      (
        record b' { closes = update_closes bars b'.closes },
        rw e,
        record {
          valid = record { book = replay.valid.book; open_ = replay.valid.open_ };
          outcome = λ id r h. Outcome-earlier (get bars r.symbol) b clocked _ id r refl (
              Outcome-later (get bars r.symbol) clocked b' _ id r refl refl
                (replay.outcome id r h));
          orders_kept = replay.orders_kept;
          pending_kept = replay.pending_kept;
        },
      )
