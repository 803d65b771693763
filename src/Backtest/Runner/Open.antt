-- ===== src/Backtest/Runner/Open.antt =====
-- backtest/runner.py: the ids that `find_open_broker_order_ids` lists, and the links of the tables
-- over the cancellations at the end of a run.
use carcharoth.Base.{
  String, [], ◌∷◌, true, false, none, some, keep, All, All-map, arith, ◌≡◌, refl, sym, ◌∙◌, inl,
  inr, Bool-cases,
}
use carcharoth.Base.Eq.{◌==◌, string_eq, eq_of_beq, beq_of_eq}
use carcharoth.Base.Dict.{Dict, get, keys, IsDict, get-cons_cases, get-cons_ne, get-cons_self}
use carcharoth.Base.Sort.{elem}
use carcharoth.Domain.{is_terminal}
use carcharoth.Broker.Account.{Broker}
use carcharoth.Broker.Follows.{Follows}
use carcharoth.Backtest.Store.{OrderRow, Tables, is_open_row, find_open_broker_order_ids}
use carcharoth.Backtest.Runner.Links.{IsLinked}
use carcharoth.Backtest.Runner.Rounds.{IsRow}

module _ {F : Type 0} (run_id : String) where
  -- an entry of a dict that has no key twice is found in any dict it is a part of
  abbrev Rows : Dict String (OrderRow F) → String → Type 0
  Rows d id = (row : OrderRow F) × (get d id ≡ some row) × (row.run_id ≡ run_id)

  Rows-cons :
      (k : String) (v : OrderRow F) (d : Dict String (OrderRow F))
      → get d k ≡ none
      → (id : String) → Rows d id
      → Rows ((k, v) ∷ d) id
  Rows-cons k v d absent id (row, found, own) =
      (row, get-cons_ne k id v d (λ e. cc (absent, found, e)) ∙ found, own)

  open-Rows :
      (d : Dict String (OrderRow F)) → IsDict d → All (Rows d) (keys (keep (is_open_row run_id) d))
  unfolding keep
  open-Rows [] dict = tt
  open-Rows ((k, v) ∷ d) dict =
      let rest = All-map (Rows-cons k v d dict.0) _ (open-Rows d dict.1) in
      elim (Bool-cases (is_open_row run_id (k, v))) [
        | inl counted ↦
            let own : (v.run_id == run_id) ≡ true = ground (arith, counted) in
            rw counted ((v, get-cons_self k v d, eq_of_beq v.run_id run_id own), rest)
        | inr left_out ↦ rw left_out rest
      ]

  pub open-IsRow :
      (t : Tables F) → IsDict t.orders → All (IsRow run_id t) (find_open_broker_order_ids run_id t)
  unfolding find_open_broker_order_ids
  open-IsRow t dict =
      All-map (λ id (row, found, own). record { row = row; listed = found; of_run = own })
        (keys (keep (is_open_row run_id) t.orders)) (open-Rows t.orders dict)

  elem-open :
      (d : Dict String (OrderRow F)) (j : String) (row : OrderRow F)
      → get d j ≡ some row
      → row.run_id ≡ run_id
      → is_terminal row.status ≡ false
      → elem j (keys (keep (is_open_row run_id) d)) ≡ true
  unfolding elem keep get
  elem-open [] j row found own live = cc
  elem-open ((k, v) ∷ d) j row found own live = elim (get-cons_cases k j v row d found) [
    | inl (e, same) ↦
        let counted : is_open_row run_id (k, v) ≡ true =
          ground (arith, same, live, beq_of_eq row.run_id run_id own) in
        rw counted (ground (arith, beq_of_eq j k (sym e)))
    | inr (_, later) ↦
        let rest = elem-open d j row later own live in
        elim (Bool-cases (is_open_row run_id (k, v))) [
          | inl counted ↦ rw counted (ground (arith, rest))
          | inr left_out ↦ rw left_out rest
        ]
  ]

  pub open-elem :
      (t : Tables F) (j : String) (row : OrderRow F)
      → get t.orders j ≡ some row
      → row.run_id ≡ run_id
      → is_terminal row.status ≡ false
      → elem j (find_open_broker_order_ids run_id t) ≡ true
  unfolding find_open_broker_order_ids
  open-elem t = elem-open t.orders

  closed-nothing :
      (d : Dict String (OrderRow F))
      → IsDict d
      → ((j : String) (row : OrderRow F)
          → get d j ≡ some row
          → row.run_id ≡ run_id
          → is_terminal row.status ≡ true)
      → keys (keep (is_open_row run_id) d) ≡ []
  unfolding keep
  closed-nothing [] dict closed = refl
  closed-nothing ((k, v) ∷ d) dict closed =
      let rest =
        closed-nothing d dict.1 (λ j row found.
          closed j row (get-cons_ne k j v d (λ e. cc (dict.0, found, e)) ∙ found)) in
      elim (Bool-cases (v.run_id == run_id)) [
        | inl own ↦
            let final = closed k v (get-cons_self k v d) (eq_of_beq v.run_id run_id own) in
            rw (own, final) rest
        | inr foreign ↦ rw foreign rest
      ]

  pub closed-none_open :
      (t : Tables F)
      → IsDict t.orders
      → ((j : String) (row : OrderRow F)
          → get t.orders j ≡ some row
          → row.run_id ≡ run_id
          → is_terminal row.status ≡ true)
      → find_open_broker_order_ids run_id t ≡ []
  unfolding find_open_broker_order_ids
  closed-none_open t = closed-nothing t.orders

module _ {F : Type 0} (run_id : String) (t : Tables F) where
  -- the links of the tables to a book that follows another
  pub Follows-IsLinked :
      (b c : Broker F) → IsLinked run_id b t → Follows b.orders c.orders → IsLinked run_id c t
  Follows-IsLinked b c linked follows = record {
    distinct = linked.distinct;
    keyed =
        λ j o found. let (p, old, named) = follows.back j o found in named (linked.keyed j p old);
    known = λ j row found own. let (p, old) = linked.known j row found own in follows.forth j p old;
    own = λ j trade o found now.
        let (p, old, _) = follows.back j o now in linked.own j trade p found old;
  }
