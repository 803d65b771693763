-- ===== src/Backtest/Runner/Sound.antt =====
-- backtest/runner.py: what the services of the engine keep of the desk.
use carcharoth.Base.{
  String, List, true, some, arith, ◌≡◌, ◌⊎◌, refl, sym, ◌∙◌, ap, subst, inl, inr, Bool-cases,
  Option-cases,
}
use carcharoth.Base.Eq.{◌==◌, string_eq}
use carcharoth.Base.Float.{Float}
use carcharoth.Base.Dict.{get, put, contains, get-put, get-put_cases, put-IsDict, get-put_self}
use carcharoth.Base.Result.{Result, ok, err, is_ok, ok-inj}
use carcharoth.Domain.{Time, BarSpec, AccountState, OrderRequest, OrderResult}
use carcharoth.Broker.Account.{Broker}
use carcharoth.Broker.Orders.{submit, accepted_order, cancel_order}
use carcharoth.Broker.Invariant.{IsValid}
use carcharoth.Broker.Calls.{submit_inversion, submit-IsValid, cancel_order-IsValid}
use carcharoth.Broker.Follows.{Follows, cancel_order-Follows}
use carcharoth.Engine.Steady.{IsSteady, is_soft}
use carcharoth.Backtest.Market.{History, get_snapshot, require_cursor}
use carcharoth.Backtest.Store.{TradeRow, save_submitted, submitted_row}
use carcharoth.Backtest.Runner.{Desk, Parts, desk_services, set_broker, set_tables, set_order}
use carcharoth.Backtest.Runner.Links.{IsLinked}
use carcharoth.Backtest.Runner.Open.{Follows-IsLinked}

-- What holds of a desk at any time of a run: the broker is valid, the tables belong to it, and a
-- trade is the run's or has the id of a trade of another run, which no order of the broker has.
pub record IsSound {F P : Type 0} ⦃num : Float F⦄ (run_id : String) (foreign : String → Type 0)
    (d : Desk F P) : Type 0 where
  pub valid : IsValid d.broker
  pub linked : IsLinked run_id d.broker d.tables
  pub trades_own :
      (id : String) (trade : TradeRow F)
      → get d.tables.trades id ≡ some trade
      → (trade.run_id ≡ run_id) ⊎ foreign id
  pub orders_own :
      (id : String) (o : OrderResult F) → get d.broker.orders id ≡ some o → foreign id → ⊥

-- What is asked of the other parts: `uuid4` gives no id of a trade of another run, and the
-- repository of the snapshots does not raise.
pub record IsCalm {F P : Type 0} (parts : Parts F P) (foreign : String → Type 0) : Type 0 where
  pub fresh : (rest : P) → foreign (parts.fresh_id rest).0 → ⊥
  pub saves :
      (t : Time) (state : AccountState F) (rest : P)
      → is_ok (parts.save_snapshot t state rest).0 ≡ true

module _ {F P : Type 0} ⦃num : Float F⦄ (parts : Parts F P) (foreign : String → Type 0) where
  abbrev pub Holds : Desk F P → Type 0
  Holds = IsSound parts.run_id foreign

  rest-IsSound : (d : Desk F P) (rest : P) → Holds d → Holds (record d { rest = rest })
  rest-IsSound d rest i = record {
    valid = i.valid;
    linked = i.linked;
    trades_own = i.trades_own;
    orders_own = i.orders_own;
  }

  pub market-IsSound : (d : Desk F P) (h : History F) → Holds d → Holds (record d { market = h })
  market-IsSound d h i = record {
    valid = i.valid;
    linked = i.linked;
    trades_own = i.trades_own;
    orders_own = i.orders_own;
  }

  -- a valid broker whose book follows the one before
  pub broker-IsSound :
      (d : Desk F P) (b : Broker F)
      → Holds d
      → IsValid b
      → Follows d.broker.orders b.orders
      → Holds (record d { broker = b })
  broker-IsSound d b i valid follows = record {
    valid = valid;
    linked = Follows-IsLinked parts.run_id d.tables d.broker b i.linked follows;
    trades_own = i.trades_own;
    orders_own = λ id o found. let (p, old, _) = follows.back id o found in i.orders_own id p old;
  }

  cancelled-IsSound :
      (id : String) (d : Desk F P) (r : Result (Broker F))
      → Holds d
      → cancel_order id d.broker ≡ r
      → Holds (set_broker d r).1
  cancelled-IsSound id d (ok b) i e =
      broker-IsSound d b i (cancel_order-IsValid id d.broker b i.valid e)
        (cancel_order-Follows id d.broker b e)
  cancelled-IsSound id d (err raised) i e = i

  -- an accepted order, under an id that is no trade of another run
  accepted-IsSound :
      (d : Desk F P) (id : String) (rest : P) (request : OrderRequest F) (o : OrderResult F)
      (b : Broker F)
      → Holds d
      → (foreign id → ⊥)
      → submit id request d.broker ≡ ok (o, b)
      → Holds (record d { broker = b; rest = rest })
        × ((get b.orders id ≡ some o) × (o.broker_order_id ≡ id))
  accepted-IsSound d id rest request o b i new e =
      let (as_of, _, _, _, same, after) = submit_inversion id request d.broker b o e in
      let book : b.orders ≡ put d.broker.orders id o =
        ap (λ x. x.orders) after ∙ ap (λ x. put d.broker.orders id x) (sym same) in
      let named : o.broker_order_id ≡ id =
        ap (λ x. x.broker_order_id) same ∙ (unfold accepted_order in refl) in
      let cases = λ (j : String) (p : OrderResult F) (found : get b.orders j ≡ some p).
        get-put_cases d.broker.orders id j o (ap (λ x. get x j) (sym book) ∙ found) in
      let own_orders : (j : String) (p : OrderResult F) → get b.orders j ≡ some p → foreign j → ⊥ =
        λ j p found. elim (cases j p found) [
          | inl (here, _) ↦ subst (λ k. foreign k → ⊥) here new
          | inr (_, old) ↦ i.orders_own j p old
        ] in
      (
        record {
          valid = submit-IsValid id request d.broker b o i.valid e;
          linked = record {
            distinct = i.linked.distinct;
            keyed = λ j p found. elim (cases j p found) [
              | inl (here, is) ↦ ap (λ x. x.broker_order_id) (sym is) ∙ (named ∙ here)
              | inr (_, old) ↦ i.linked.keyed j p old
            ];
            known = λ j row found own.
                let (p, old) = i.linked.known j row found own in
                elim (Bool-cases (id == j)) [
                  | inl here ↦ (
                    o,
                    ap (λ x. get x j) book ∙ ground (arith, get-put d.broker.orders id j o, here),
                  )
                  | inr other ↦ (
                    p,
                    ap (λ x. get x j) book
                        ∙ ground (arith, get-put d.broker.orders id j o, other, old),
                  )
                ];
            own = λ j trade p found now. elim (i.trades_own j trade found) [
              | inl own ↦ own
              | inr alien ↦ absurd (own_orders j p now alien)
            ];
          };
          trades_own = i.trades_own;
          orders_own = own_orders;
        },
        (ap (λ x. get x id) book ∙ get-put_self d.broker.orders id o, named),
      )

  -- the row of an order that the broker has
  saved-IsSound :
      (d : Desk F P) (id : String) (o : OrderResult F)
      → Holds d
      → get d.broker.orders id ≡ some o
      → o.broker_order_id ≡ id
      → Holds (set_tables d (save_submitted parts.run_id o d.tables)).1
  unfolding save_submitted
  saved-IsSound d id o i there named =
      elim (Bool-cases (contains d.tables.orders o.broker_order_id)) [
        | inl taken ↦ rw taken i
        | inr free ↦ rw free (record {
          valid = i.valid;
          linked = record {
            distinct =
                put-IsDict d.tables.orders o.broker_order_id (submitted_row parts.run_id o)
                  i.linked.distinct;
            keyed = i.linked.keyed;
            known = λ j row found own.
                elim (get-put_cases d.tables.orders o.broker_order_id j
                  (submitted_row parts.run_id o) found) [
                    | inl (here, _) ↦
                        (o, subst (λ k. get d.broker.orders k ≡ some o) (sym named ∙ here) there)
                    | inr (_, old) ↦ i.linked.known j row old own
                  ];
            own = i.linked.own;
          };
          trades_own = i.trades_own;
          orders_own = i.orders_own;
        })
      ]

  submitted-IsSound :
      (request : OrderRequest F) (d : Desk F P) (id : String) (rest : P)
      (r : Result (OrderResult F × Broker F))
      → Holds d
      → (foreign id → ⊥)
      → submit id request d.broker ≡ r
      → Holds (set_order (record d { rest = rest }) r).1
        × ((o : OrderResult F)
            → (set_order (record d { rest = rest }) r).0 ≡ ok o
            → Holds
                (set_tables (set_order (record d { rest = rest }) r).1 (
                  save_submitted parts.run_id o
                    (set_order (record d { rest = rest }) r).1.tables)).1)
  submitted-IsSound request d id rest (err raised) i new e = (rest-IsSound d rest i, λ o raises. cc)
  submitted-IsSound request d id rest (ok (o, b)) i new e =
      let (after, (there, named)) = accepted-IsSound d id rest request o b i new e in
      (
        after,
        λ p is.
            saved-IsSound (record d { broker = b; rest = rest }) id p after
              (there ∙ ap some (ok-inj is)) (ap (λ x. x.broker_order_id) (sym (ok-inj is)) ∙ named),
      )

  soft_market :
      (symbols : List String) (spec : BarSpec) (h : History F)
      → is_soft (get_snapshot symbols spec h) ≡ true
  unfolding get_snapshot require_cursor
  soft_market symbols spec h = elim (Option-cases h.as_of) [
    | inl unset ↦ rw unset refl
    | inr (t, set) ↦ rw set refl
  ]

  -- the services keep the desk, and do not fail a tick
  pub desk_services-IsSteady : IsCalm parts foreign → IsSteady (desk_services parts) Holds
  unfolding desk_services
  desk_services-IsSteady calm = record {
    lawful = record {
      generates = λ symbol snapshot position d i. rest-IsSound d _ i;
      assesses = λ intent state quote d i. i;
      decides = λ intent decision t d i. rest-IsSound d _ i;
      lists = λ symbol d i. i;
      cancels = λ id d i. cancelled-IsSound id d _ i refl;
      names = λ d i. rest-IsSound d _ i;
      sends = λ request d i.
          (submitted-IsSound request d (parts.fresh_id d.rest).0 (parts.fresh_id d.rest).1 _ i
            (calm.fresh d.rest) refl).0;
      records = λ request d o i is.
          (submitted-IsSound request d (parts.fresh_id d.rest).0 (parts.fresh_id d.rest).1 _ i
              (calm.fresh d.rest) refl).1
            o is;
    };
    requires = λ d i. (refl, i);
    accounts = λ d i. (refl, i);
    snapshots = λ t state d i. (calm.saves t state d.rest, rest-IsSound d _ i);
    markets = λ symbols spec d i. (soft_market symbols spec d.market, i);
  }
