-- ===== src/Backtest/Runner/Reconciles.antt =====
-- backtest/runner.py: the reconciliation of a tick over the tables of a run.
use carcharoth.Base.{
  String, List, [], ◌∷◌, true, some, All, All-map, ◌≡◌, refl, sym, ◌∙◌, ap, subst, inl, inr,
  Bool-cases,
}
use carcharoth.Base.Float.{Float}
use carcharoth.Base.Eq.{string_eq}
use carcharoth.Base.Dict.{get, put}
use carcharoth.Base.Result.{Result, ok, err, is_ok}
use carcharoth.Domain.{OrderResult, is_filled}
use carcharoth.Engine.Effects.{Call, World, Exec, call, continue, ◌>>=◌, try}
use carcharoth.Engine.Tick.{
  save_unless_known, save_fill_once, record_result, fetch_or_skip, record_or_skip, reconcile_all,
  reconcile_fills,
}
use carcharoth.Engine.Steady.{Succeeds}
use carcharoth.Backtest.Store.{
  OrderRow, Tables, updated_row, exists_for_order, find_open_broker_order_ids,
}
use carcharoth.Backtest.Runner.{Desk, Parts, desk_services, save_if_filled, reconcile_one}
use carcharoth.Backtest.Runner.Links.{IsLinked, Settles, update_from_broker-row}
use carcharoth.Backtest.Runner.Rounds.{IsRow, later-IsRow, reconcile_one-Settles, get_order-some}
use carcharoth.Backtest.Runner.Open.{open-IsRow}
use carcharoth.Backtest.Runner.Sound.{Holds}

module _ {F P : Type 0} ⦃num : Float F⦄ (parts : Parts F P) (foreign : String → Type 0) where
  -- what an action does to the desk, without the calls
  abbrev bare : {A : Type 0} → Exec F (Desk F P) A → World F (Desk F P) → Result A × Desk F P
  bare m w = ((m w).0, (m w).1.outside)

  save_fill_once-bare :
      (id : String) (o : OrderResult F) (d : Desk F P) (cs ds : List (Call F))
      → bare (save_fill_once (desk_services parts) id o) (record { outside = d; calls = cs })
        ≡ bare (save_if_filled parts id o) (record { outside = d; calls = ds })
  unfolding save_fill_once save_unless_known desk_services call
  save_fill_once-bare id o d cs ds = elim (Bool-cases (is_filled o.status)) [
    | inr unfilled ↦ rw unfilled refl
    | inl filled ↦ elim (Bool-cases (exists_for_order parts.run_id id d.tables)) [
      | inl known ↦ rw (filled, known) refl
      | inr new ↦ rw (filled, new) refl
    ]
  ]

  abbrev round : String → Exec F (Desk F P) (Unit {0})
  round id = fetch_or_skip (desk_services parts) id >>= record_or_skip (desk_services parts) id

  -- a round of the engine's loop does what a round of the runner's does
  round-bare :
      (id : String) (o : OrderResult F) (row : OrderRow F) (w : World F (Desk F P))
      → IsLinked parts.run_id w.outside.broker w.outside.tables
      → get w.outside.broker.orders id ≡ some o
      → get w.outside.tables.orders id ≡ some row
      → bare (round id) w ≡ bare (reconcile_one parts id) w
  unfolding fetch_or_skip record_or_skip record_result reconcile_one desk_services call try
  round-bare id o row w linked there was =
      let d = w.outside in
      let first = get_order-some parts d.broker id there in
      let second =
        update_from_broker-row parts.run_id o d.tables id (linked.keyed id o there) was in
      let written : Tables F = record d.tables {
        orders = put d.tables.orders id (updated_row o row);
      } in
      rw (first, second)
        (save_fill_once-bare id o (record d { tables = written })
          (Call.updated_order o ∷ Call.fetched_order id ∷ w.calls) w.calls)

  -- a round succeeds and keeps the desk, and the rows that are known
  round-Settles :
      (id : String) (w : World F (Desk F P))
      → Holds parts foreign w.outside
      → IsRow parts.run_id w.outside.tables id
      → (o : OrderResult F) × ((t : Tables F) × (bare (round id) w
            ≡ (ok tt, record w.outside { tables = t }))
          × Settles parts.run_id w.outside.broker w.outside.tables t id o)
  round-Settles id w i at =
      let (o, there) = i.linked.known id at.row at.listed at.of_run in
      let (t, ran, settles) = reconcile_one-Settles parts w id o at.row i.linked there at.listed in
      (
        o,
        (
          t,
          round-bare id o at.row w i.linked there at.listed ∙ ap (λ p. (p.0, p.1.outside)) ran,
          settles,
        ),
      )

  settled-Holds :
      (d : Desk F P) (t : Tables F) (id : String) (o : OrderResult F)
      → Holds parts foreign d
      → Settles parts.run_id d.broker d.tables t id o
      → Holds parts foreign (record d { tables = t })
  settled-Holds d t id o i settles = record {
    valid = i.valid;
    linked = settles.linked;
    trades_own = λ j trade found. elim (settles.trades_from j trade found) [
      | inl old ↦ i.trades_own j trade old
      | inr own ↦ inl own
    ];
    orders_own = i.orders_own;
  }

  continue-then :
      {A : Type 0} (r : Result A) (f : A → Exec F (Desk F P) (Unit {0}))
      (k : Unit {0} → Exec F (Desk F P) (Unit {0})) (w : World F (Desk F P))
      → continue r (λ a. f a >>= k) w ≡ continue (continue r f w).0 k (continue r f w).1
  continue-then (ok a) f k w = refl
  continue-then (err e) f k w = refl

  -- the rest of the loop, from what its round has given
  after_round :
      (id : String) (ids : List String) (w : World F (Desk F P)) (t : Tables F)
      → bare (round id) w ≡ (ok tt, record w.outside { tables = t })
      → reconcile_all (desk_services parts) (id ∷ ids) w
        ≡ reconcile_all (desk_services parts) ids (round id w).1
  unfolding reconcile_all
  after_round id ids w t ran =
      let rest : Unit {0} → Exec F (Desk F P) (Unit {0}) =
        λ _. reconcile_all (desk_services parts) ids in
      let (fetched, w1) = fetch_or_skip (desk_services parts) id w in
      continue-then fetched (record_or_skip (desk_services parts) id) rest w1
      ∙ ap (λ r. continue r rest (round id w).1) (ap (λ p. p.0) ran)

  reconcile_all-Succeeds :
      (ids : List String) (w : World F (Desk F P))
      → Holds parts foreign w.outside
      → All (IsRow parts.run_id w.outside.tables) ids
      → (is_ok (reconcile_all (desk_services parts) ids w).0 ≡ true)
        × Holds parts foreign (reconcile_all (desk_services parts) ids w).1.outside
  unfolding reconcile_all
  reconcile_all-Succeeds [] w i rows = (refl, i)
  reconcile_all-Succeeds (id ∷ ids) w i rows =
      let (o, (t, ran, settles)) = round-Settles id w i rows.0 in
      let left_with : (round id w).1.outside ≡ record w.outside { tables = t } =
        ap (λ p. p.1) ran in
      let rest =
        reconcile_all-Succeeds ids (round id w).1
          (subst (Holds parts foreign) (sym left_with) (settled-Holds w.outside t id o i settles))
          (subst (λ d. All (IsRow parts.run_id d.tables) ids) (sym left_with)
            (All-map (later-IsRow parts.run_id w.outside.broker w.outside.tables t id o settles) ids
              rows.1)) in
      subst (λ p. (is_ok p.0 ≡ true) × Holds parts foreign p.1.outside)
        (sym (after_round id ids w t ran)) rest

  -- the reconciliation of a tick succeeds
  pub reconcile_fills-Succeeds :
      Succeeds (Holds parts foreign) (reconcile_fills (desk_services parts))
  unfolding reconcile_fills call desk_services
  reconcile_fills-Succeeds w i =
      reconcile_all-Succeeds (find_open_broker_order_ids parts.run_id w.outside.tables)
        (record w { calls = Call.listed_open_ids ∷ w.calls }) i
        (open-IsRow parts.run_id w.outside.tables i.linked.distinct)
