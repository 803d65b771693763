-- ===== src/Backtest/Runner/Finish.antt =====
-- backtest/runner.py: what the end of a run leaves open.
use carcharoth.Base.{
  none, String, List, [], ◌∷◌, true, false, some, All, All-map, false≢true, ◌≡◌, refl, ◌∙◌, ap, inl,
  inr, Bool-cases,
}
use carcharoth.Base.Eq.{string_eq}
use carcharoth.Base.Float.{Float}
use carcharoth.Base.Dict.{get}
use carcharoth.Base.Result.{ok}
use carcharoth.Base.Sort.{elem}
use carcharoth.Domain.{OrderResult, is_terminal}
use carcharoth.Broker.Account.{Broker}
use carcharoth.Engine.Effects.{World, continue}
use carcharoth.Backtest.Store.{OrderRow, Tables}
use carcharoth.Backtest.Runner.{Desk, Parts, reconcile_ids}
use carcharoth.Backtest.Runner.Links.{IsLinked}
use carcharoth.Broker.Orders.{cancel_pending}
use carcharoth.Broker.Closing.{cancel_pending_closes}
use carcharoth.Broker.Invariant.{IsValid}
use carcharoth.Base.Dict.{keys}
use carcharoth.Backtest.Store.{find_open_broker_order_ids}
use carcharoth.Backtest.Runner.{reconcile_remaining, finish}
use carcharoth.Backtest.Runner.Open.{open-IsRow, open-elem, closed-none_open, Follows-IsLinked}
use carcharoth.Broker.Follows.{cancel_all-Follows}
use carcharoth.Backtest.Runner.Rounds.{
  IsSynced, IsRow, with_tables, reconcile_one-Settles, settled-IsSynced, later-IsSynced,
  later-IsRow, later-open,
}

-- the tables after a reconciliation of some ids
pub record IsReconciled {F : Type 0} (run_id : String) (b : Broker F) (t : Tables F)
    (ids : List String) : Type 0 where
  pub linked : IsLinked run_id b t
  pub synced : All (IsSynced run_id b t) ids
  pub all_closed :
      (id : String) (row : OrderRow F)
      → get t.orders id ≡ some row
      → row.run_id ≡ run_id
      → is_terminal row.status ≡ true

module _ {F P : Type 0} ⦃num : Float F⦄ (parts : Parts F P) where
  reconcile_ids_total :
      (ids : List String) (w : World F (Desk F P))
      → IsLinked parts.run_id w.outside.broker w.outside.tables
      → ((id : String) (o : OrderResult F)
          → get w.outside.broker.orders id ≡ some o
          → is_terminal o.status ≡ true)
      → All (IsRow parts.run_id w.outside.tables) ids
      → ((j : String) (row : OrderRow F)
          → get w.outside.tables.orders j ≡ some row
          → row.run_id ≡ parts.run_id
          → is_terminal row.status ≡ false
          → elem j ids ≡ true)
      → (t : Tables F) × (reconcile_ids parts ids w ≡ (ok tt, with_tables parts w t))
        × IsReconciled parts.run_id w.outside.broker t ids
        × ((j : String)
            → IsSynced parts.run_id w.outside.broker w.outside.tables j
            → IsSynced parts.run_id w.outside.broker t j)
  unfolding reconcile_ids elem
  reconcile_ids_total [] w linked final rows open_ = (
    w.outside.tables,
    refl,
    record {
      linked = linked;
      synced = tt;
      all_closed = λ id row found own. elim (Bool-cases (is_terminal row.status)) [
        | inl closed ↦ closed
        | inr live ↦ absurd (false≢true (open_ id row found own live))
      ];
    },
    λ j h. h,
  )
  reconcile_ids_total (id ∷ ids) w linked final rows open_ =
      let b = w.outside.broker in
      let t = w.outside.tables in
      let (o, there) = linked.known id rows.0.row rows.0.listed rows.0.of_run in
      let (t', ran, settles) =
        reconcile_one-Settles parts w id o rows.0.row linked there rows.0.listed in
      let (last, rest, done, kept) =
        reconcile_ids_total ids (with_tables parts w t') settles.linked final
          (All-map (later-IsRow parts.run_id b t t' id o settles) ids rows.1)
          (later-open parts.run_id b t t' id o settles ids (final id o there) open_) in
      (
        last,
        ap (λ p. continue p.0 (λ _. reconcile_ids parts ids) p.1) ran ∙ rest,
        record {
          linked = done.linked;
          synced = (kept id (settled-IsSynced parts.run_id b t t' id o settles there), done.synced);
          all_closed = done.all_closed;
        },
        λ j h. kept j (later-IsSynced parts.run_id b t t' id o settles there j h),
      )

  -- the desk after the end of a run
  pub record IsFinished (d d' : Desk F P) : Type 0 where
    pub valid : IsValid d'.broker
    pub none_pending : (id : String) → get d'.broker.pending id ≡ none
    pub none_open : find_open_broker_order_ids parts.run_id d'.tables ≡ []
    pub synced :
        All
          (IsSynced parts.run_id d'.broker d'.tables)
          (find_open_broker_order_ids parts.run_id d.tables)
    pub tables_linked : IsLinked parts.run_id d'.broker d'.tables

  -- The end of a run leaves nothing open: with a valid broker and tables that belong to it, the
  -- cancellations and the last reconciliation succeed; then no order is pending, no order of the run
  -- is open in the table, and each one that was open has the status it has in the broker, and its
  -- trade if it is filled.
  pub finish_closes :
      (w : World F (Desk F P))
      → IsValid w.outside.broker
      → IsLinked parts.run_id w.outside.broker w.outside.tables
      → (w' : World F (Desk F P)) × (finish parts w ≡ (ok tt, w')) × IsFinished w.outside w'.outside
  unfolding finish reconcile_remaining cancel_pending
  finish_closes w valid linked =
      let d = w.outside in
      let (c, cancelled, still, none_left, final, _) = cancel_pending_closes d.broker valid in
      let kept =
        Follows-IsLinked parts.run_id d.tables d.broker c linked
          (cancel_all-Follows (keys d.broker.pending) d.broker c cancelled) in
      let after : World F (Desk F P) = record w { outside = record d { broker = c } } in
      let (t, ran, done, _) =
        reconcile_ids_total (find_open_broker_order_ids parts.run_id d.tables) after kept final
          (open-IsRow parts.run_id d.tables kept.distinct) (open-elem parts.run_id d.tables) in
      (
        with_tables parts after t,
        rw cancelled ran,
        record {
          valid = still;
          none_pending = none_left;
          none_open = closed-none_open parts.run_id t done.linked.distinct done.all_closed;
          synced = done.synced;
          tables_linked = done.linked;
        },
      )
