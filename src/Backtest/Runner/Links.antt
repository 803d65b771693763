-- ===== src/Backtest/Runner/Links.antt =====
-- backtest/runner.py: how the broker's book and the tables of a run belong together.
use carcharoth.Base.{
  ◌⊎◌, String, true, false, none, some, arith, ◌≡◌, refl, sym, ap, subst, inl, inr, Bool-cases,
  Option-cases,
}
use carcharoth.Base.Eq.{◌==◌, string_eq, beq_of_eq, beq_self}
use carcharoth.Base.Float.{Float}
use carcharoth.Base.Dict.{get, put, IsDict, put-IsDict, get-put, get-put_self, get-put_cases}
use carcharoth.Base.Result.{ok}
use carcharoth.Domain.{OrderResult, is_filled}
use carcharoth.Broker.Account.{Broker}
use carcharoth.Engine.Effects.{World, Exec, Service, continue, ◌>>=◌}
use carcharoth.Engine.Scheduler.{ask}
use carcharoth.Backtest.Store.{
  OrderRow, TradeRow, Tables, updated_row, update_row, update_from_broker, exists_for_order,
  fill_row, save_fill,
}
use carcharoth.Backtest.Runner.{Desk}

-- How the tables of a run and the broker's book belong together: the table has no id twice, the book
-- is kept by the ids of its orders, it has every order of the run that the table has, and the trades
-- of its orders are the run's.
pub record IsLinked {F : Type 0} (run_id : String) (b : Broker F) (t : Tables F) : Type 0 where
  pub distinct : IsDict t.orders
  pub keyed : (id : String) (o : OrderResult F) → get b.orders id ≡ some o → o.broker_order_id ≡ id
  pub known :
      (id : String) (row : OrderRow F)
      → get t.orders id ≡ some row
      → row.run_id ≡ run_id
      → (o : OrderResult F) × (get b.orders id ≡ some o)
  pub own :
      (id : String) (trade : TradeRow F) (o : OrderResult F)
      → get t.trades id ≡ some trade
      → get b.orders id ≡ some o
      → trade.run_id ≡ run_id

module _ {F P : Type 0} where
  -- a service that does not raise, and what follows it
  pub ask-then :
      {A B : Type 0} (service : Service (Desk F P) A) (k : A → Exec F (Desk F P) B)
      (w : World F (Desk F P)) {a : A} {d : Desk F P}
      → service w.outside ≡ (ok a, d)
      → (ask service >>= k) w ≡ k a (record w { outside = d })
  ask-then service k w e = ap (λ p. continue p.0 k (record w { outside = p.1 })) e

-- what a round of the reconciliation does to the tables
pub record Settles {F : Type 0} (run_id : String) (b : Broker F) (t t' : Tables F) (id : String)
    (o : OrderResult F) : Type 0 where
  pub linked : IsLinked run_id b t'
  pub row : OrderRow F
  pub row_was : get t.orders id ≡ some row
  pub orders_are : t'.orders ≡ put t.orders id (updated_row o row)
  pub traded : is_filled o.status ≡ true → exists_for_order run_id id t' ≡ true
  pub trades_kept :
      (j : String) → exists_for_order run_id j t ≡ true → exists_for_order run_id j t' ≡ true
  pub trades_from :
      (j : String) (trade : TradeRow F)
      → get t'.trades j ≡ some trade
      → (get t.trades j ≡ some trade) ⊎ (trade.run_id ≡ run_id)

module _ {F : Type 0} ⦃num : Float F⦄ (run_id : String) where
  pub update_from_broker-row :
      (o : OrderResult F) (t : Tables F) (id : String) {row : OrderRow F}
      → o.broker_order_id ≡ id
      → get t.orders id ≡ some row
      → update_from_broker o t ≡ ok (record t { orders = put t.orders id (updated_row o row) })
  unfolding update_from_broker update_row
  update_from_broker-row o t id {row} e found =
      subst
        (λ j.
          update_row o (get t.orders j) t
          ≡ ok (record t { orders = put t.orders id (updated_row o row) }))
        (sym e)
        (rw found (ap (λ j. ok (record t { orders = put t.orders j (updated_row o row) })) e))

  -- what a fill that is new leaves
  pub save_fill-new :
      (o : OrderResult F) (t : Tables F) (id : String)
      → o.broker_order_id ≡ id
      → get t.trades id ≡ none
      → save_fill run_id o t ≡ ok (record t { trades = put t.trades id (fill_row run_id o) })
  unfolding save_fill
  save_fill-new o t id e absent = rw (e, absent) refl

  -- the row of an order takes the order's status; the links stay
  pub updated-IsLinked :
      (b : Broker F) (t : Tables F) (id : String) (o : OrderResult F) (row : OrderRow F)
      → IsLinked run_id b t
      → get t.orders id ≡ some row
      → get b.orders id ≡ some o
      → IsLinked run_id b (record t { orders = put t.orders id (updated_row o row) })
  updated-IsLinked b t id o row linked was there = record {
    distinct = put-IsDict t.orders id (updated_row o row) linked.distinct;
    keyed = linked.keyed;
    known = λ j new found same. elim (get-put_cases t.orders id j (updated_row o row) found) [
      | inl (e, _) ↦ (o, subst (λ k. get b.orders k ≡ some o) e there)
      | inr (_, old) ↦ linked.known j new old same
    ];
    own = linked.own;
  }

  pub added-IsLinked :
      (b : Broker F) (t : Tables F) (id : String) (o : OrderResult F)
      → IsLinked run_id b t
      → IsLinked run_id b (record t { trades = put t.trades id (fill_row run_id o) })
  added-IsLinked b t id o linked = record {
    distinct = linked.distinct;
    keyed = linked.keyed;
    known = linked.known;
    own = λ j trade p found there. elim (get-put_cases t.trades id j (fill_row run_id o) found) [
      | inl (_, e) ↦ sym (ap (λ r. r.run_id) e)
      | inr (_, old) ↦ linked.own j trade p old there
    ];
  }

  pub exists-put :
      (t : Tables F) (id j : String) (o : OrderResult F)
      → exists_for_order run_id j t ≡ true
      → exists_for_order run_id j (record t { trades = put t.trades id (fill_row run_id o) }) ≡ true
  unfolding exists_for_order
  exists-put t id j o h = elim (Bool-cases (id == j)) [
    | inl same ↦ rw (get-put t.trades id j (fill_row run_id o), same, beq_self run_id) refl
    | inr other ↦ rw (get-put t.trades id j (fill_row run_id o), other) h
  ]

  pub exists-put_self :
      (t : Tables F) (id : String) (o : OrderResult F)
      → exists_for_order run_id id (record t { trades = put t.trades id (fill_row run_id o) })
        ≡ true
  unfolding exists_for_order
  exists-put_self t id o = rw (get-put_self t.trades id (fill_row run_id o), beq_self run_id) refl

  -- no trade of the run is no trade
  pub not-exists_none :
      (b : Broker F) (t : Tables F) (id : String) (o : OrderResult F)
      → IsLinked run_id b t
      → get b.orders id ≡ some o
      → exists_for_order run_id id t ≡ false
      → get t.trades id ≡ none
  unfolding exists_for_order
  not-exists_none b t id o linked there absent = elim (Option-cases (get t.trades id)) [
    | inl gone ↦ gone
    | inr (trade, found) ↦ absurd (
        ground
          (arith, absent, found, beq_of_eq trade.run_id run_id (linked.own id trade o found there)))
  ]
