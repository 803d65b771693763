-- ===== src/Backtest/Runner/Rounds.antt =====
-- backtest/runner.py: one round of `_reconcile_remaining`.
use carcharoth.Base.{
  String, List, ◌∷◌, true, false, some, arith, ◌≡◌, ◌≢◌, ◌⊎◌, refl, sym, ◌∙◌, ap, subst, inl, inr,
  Bool-cases,
}
use carcharoth.Base.Eq.{◌==◌, string_eq, eq_of_beq, beq_of_eq}
use carcharoth.Base.Float.{Float}
use carcharoth.Base.Dict.{get, put, get-put_self, get-put_ne, get-put_cases}
use carcharoth.Base.Result.{ok}
use carcharoth.Base.Sort.{elem}
use carcharoth.Domain.{OrderResult, is_terminal, is_filled}
use carcharoth.Broker.Account.{Broker}
use carcharoth.Broker.Orders.{get_order}
use carcharoth.Engine.Effects.{World}
use carcharoth.Backtest.Store.{OrderRow, TradeRow, Tables, updated_row, exists_for_order, fill_row}
use carcharoth.Backtest.Runner.{Desk, Parts, save_if_filled, reconcile_one}
use carcharoth.Backtest.Runner.Links.{
  IsLinked, Settles, update_from_broker-row, save_fill-new, updated-IsLinked, added-IsLinked,
  exists-put, exists-put_self, not-exists_none,
}

module _ {F P : Type 0} ⦃num : Float F⦄ (parts : Parts F P) where
  -- the tables of a world
  abbrev pub with_tables : World F (Desk F P) → Tables F → World F (Desk F P)
  with_tables w t = record w { outside = record w.outside { tables = t } }

  pub get_order-some :
      (b : Broker F) (id : String) {o : OrderResult F}
      → get b.orders id ≡ some o
      → get_order id b ≡ ok o
  unfolding get_order
  get_order-some b id there = ground (arith, there)

  -- the trade of an order, which ends as known
  save_if_filled_known :
      (w : World F (Desk F P)) (id : String) (o : OrderResult F)
      → IsLinked parts.run_id w.outside.broker w.outside.tables
      → get w.outside.broker.orders id ≡ some o
      → (t : Tables F) × (save_if_filled parts id o w ≡ (ok tt, with_tables w t))
        × (t.orders ≡ w.outside.tables.orders)
        × IsLinked parts.run_id w.outside.broker t
        × (is_filled o.status ≡ true → exists_for_order parts.run_id id t ≡ true)
        × ((j : String)
            → exists_for_order parts.run_id j w.outside.tables ≡ true
            → exists_for_order parts.run_id j t ≡ true)
        × ((j : String) (trade : TradeRow F)
            → get t.trades j ≡ some trade
            → (get w.outside.tables.trades j ≡ some trade) ⊎ (trade.run_id ≡ parts.run_id))
  save_if_filled_known w id o linked there =
      let d = w.outside in
      elim (Bool-cases (is_filled o.status)) [
        | inr unfilled ↦ (
          d.tables,
          rw unfilled refl,
          refl,
          linked,
          (λ filled. absurd (ground (arith, unfilled, filled))),
          (λ j h. h),
          λ j trade h. inl h,
        )
        | inl filled ↦ elim (Bool-cases (exists_for_order parts.run_id id d.tables)) [
          | inl known ↦ (
            d.tables,
            rw (filled, known) refl,
            refl,
            linked,
            (λ _. known),
            (λ j h. h),
            λ j trade h. inl h,
          )
          | inr new ↦
              let absent = not-exists_none parts.run_id d.broker d.tables id o linked there new in
              let saved =
                save_fill-new parts.run_id o d.tables id (linked.keyed id o there) absent in
              (
                record d.tables { trades = put d.tables.trades id (fill_row parts.run_id o) },
                rw (filled, new, saved) refl,
                refl,
                added-IsLinked parts.run_id d.broker d.tables id o linked,
                (λ _. exists-put_self parts.run_id d.tables id o),
                (λ j h. exists-put parts.run_id d.tables id j o h),
                λ j trade h. elim (get-put_cases d.tables.trades id j (fill_row parts.run_id o) h) [
                  | inl (_, same) ↦ inr (sym (ap (λ r. r.run_id) same))
                  | inr (_, old) ↦ inl old
                ],
              )
        ]
      ]

  pub reconcile_one-Settles :
      (w : World F (Desk F P)) (id : String) (o : OrderResult F) (row : OrderRow F)
      → IsLinked parts.run_id w.outside.broker w.outside.tables
      → get w.outside.broker.orders id ≡ some o
      → get w.outside.tables.orders id ≡ some row
      → (t : Tables F) × (reconcile_one parts id w ≡ (ok tt, with_tables w t))
        × Settles parts.run_id w.outside.broker w.outside.tables t id o
  unfolding reconcile_one exists_for_order
  reconcile_one-Settles w id o row linked there was =
      let d = w.outside in
      let written : Tables F = record d.tables {
        orders = put d.tables.orders id (updated_row o row);
      } in
      let first = get_order-some d.broker id there in
      let second =
        update_from_broker-row parts.run_id o d.tables id (linked.keyed id o there) was in
      let (t, saved, same, still, traded, kept, trades_from) =
        save_if_filled_known (with_tables w written) id o
          (updated-IsLinked parts.run_id d.broker d.tables id o row linked was there) there in
      (
        t,
        rw (first, second) saved,
        record {
          linked = still;
          row = row;
          row_was = was;
          orders_are = same;
          traded = traded;
          trades_kept = λ j h. kept j h;
          trades_from = trades_from;
        },
      )

-- the row of an order has the order's status, and a filled order has its trade
pub record IsSynced {F : Type 0} (run_id : String) (b : Broker F) (t : Tables F) (id : String)
    : Type 0 where
  pub order : OrderResult F
  pub row : OrderRow F
  pub ordered : get b.orders id ≡ some order
  pub listed : get t.orders id ≡ some row
  pub same : row.status ≡ order.status
  pub traded : is_filled order.status ≡ true → exists_for_order run_id id t ≡ true

-- the id of a row of the run
pub record IsRow {F : Type 0} (run_id : String) (t : Tables F) (id : String) : Type 0 where
  pub row : OrderRow F
  pub listed : get t.orders id ≡ some row
  pub of_run : row.run_id ≡ run_id

module _ {F : Type 0} (run_id : String) (b : Broker F) (t t' : Tables F) (id : String)
    (o : OrderResult F) (settles : Settles run_id b t t' id o) where
  -- what stands in the table after a round
  settled_cases :
      (j : String) {row : OrderRow F}
      → get t'.orders j ≡ some row
      → ((id ≡ j) × (updated_row o settles.row ≡ row)) ⊎ ((id ≢ j) × (get t.orders j ≡ some row))
  settled_cases j {row} found =
      get-put_cases t.orders id j (updated_row o settles.row)
        (ap (λ d. get d j) (sym settles.orders_are) ∙ found)

  settled_self : get t'.orders id ≡ some (updated_row o settles.row)
  settled_self =
      ap (λ d. get d id) settles.orders_are ∙ get-put_self t.orders id (updated_row o settles.row)

  settled_other : (j : String) → id ≢ j → get t'.orders j ≡ get t.orders j
  settled_other j ne =
      ap (λ d. get d j) settles.orders_are ∙ get-put_ne t.orders id j (updated_row o settles.row) ne

  pub settled-IsSynced : get b.orders id ≡ some o → IsSynced run_id b t' id
  settled-IsSynced there = record {
    order = o;
    row = updated_row o settles.row;
    ordered = there;
    listed = settled_self;
    same = refl;
    traded = settles.traded;
  }

  pub later-IsSynced :
      get b.orders id ≡ some o → (j : String) → IsSynced run_id b t j → IsSynced run_id b t' j
  later-IsSynced there j h = elim (Bool-cases (id == j)) [
    | inl same ↦ subst (IsSynced run_id b t') (eq_of_beq id j same) (settled-IsSynced there)
    | inr other ↦ record {
      order = h.order;
      row = h.row;
      ordered = h.ordered;
      listed = settled_other j (λ e. cc (other, beq_of_eq id j e)) ∙ h.listed;
      same = h.same;
      traded = λ filled. settles.trades_kept j (h.traded filled);
    }
  ]

  pub later-IsRow : (j : String) → IsRow run_id t j → IsRow run_id t' j
  later-IsRow j h = elim (Bool-cases (id == j)) [
    | inl same ↦
        let e = eq_of_beq id j same in
        let same_row : settles.row ≡ h.row =
          cc (settles.row_was, h.listed, ap (λ k. get t.orders k) e) in
        record {
          row = updated_row o settles.row;
          listed = subst (λ k. get t'.orders k ≡ some (updated_row o settles.row)) e settled_self;
          of_run = ap (λ r. r.run_id) same_row ∙ h.of_run;
        }
    | inr other ↦ record {
      row = h.row;
      listed = settled_other j (λ e. cc (other, beq_of_eq id j e)) ∙ h.listed;
      of_run = h.of_run;
    }
  ]

  -- an open row that is left is one of the ids that are left
  pub later-open :
      (ids : List String)
      → is_terminal o.status ≡ true
      → ((j : String) (row : OrderRow F)
          → get t.orders j ≡ some row
          → row.run_id ≡ run_id
          → is_terminal row.status ≡ false
          → elem j (id ∷ ids) ≡ true)
      → (j : String) (row : OrderRow F) → get t'.orders j ≡ some row
      → row.run_id ≡ run_id
      → is_terminal row.status ≡ false
      → elem j ids ≡ true
  unfolding elem
  later-open ids final open_ j row found own live = elim (settled_cases j found) [
    | inl (_, e) ↦ absurd (cc (e, final, live))
    | inr (ne, old) ↦ elim (Bool-cases (j == id)) [
      | inl same ↦ absurd (ne (sym (eq_of_beq j id same)))
      | inr other ↦ ground (arith, other, open_ j row old own live)
    ]
  ]
