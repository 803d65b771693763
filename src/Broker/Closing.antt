-- ===== src/Broker/Closing.antt =====
-- services/backtest/broker.py: `cancel_pending` at the end of a replay.
use carcharoth.Base.{
  String, List, [], ◌∷◌, none, some, true, false, All, All-map, arith, ◌≡◌, ◌≢◌, ◌∙◌, inl, inr,
  refl, subst, Option-cases,
}
use carcharoth.Base.Eq.{string_eq}
use carcharoth.Base.Float.{Float}
use carcharoth.Base.Dict.{
  Dict, get, keys, contains, IsDict, get-remove, get-put, get-remove_self, get-cons_self,
  get-cons_ne, get-cons_cases, not-get-empty,
}
use carcharoth.Base.Result.{ok, is_ok, value_of}
use carcharoth.Domain.{OrderRequest, OrderResult, OrderStatus, is_terminal, is_accepted}
use carcharoth.Broker.Account.{Broker}
use carcharoth.Broker.Orders.{cancel_order, cancel_all, cancel_pending, get_order, terminal}
use carcharoth.Broker.Book.{IsShaped}
use carcharoth.Broker.Invariant.{IsValid}
use carcharoth.Broker.Calls.{cancel_order-IsValid, cancel_order-keeps, cancel_order_inversion}

module _ {F : Type 0} ⦃num : Float F⦄ where
  -- `c` follows from `b` by cancelling orders
  record Cancels (b c : Broker F) : Type 0 where
    valid : IsValid c
    known : (j : String) → contains b.orders j ≡ true → contains c.orders j ≡ true
    gone : (j : String) → get b.pending j ≡ none → get c.pending j ≡ none
    terminal_kept :
        (j : String) (o : OrderResult F)
        → get b.orders j ≡ some o
        → is_terminal o.status ≡ true
        → get c.orders j ≡ some o

  unaccepted-not-pending :
      (b : Broker F) (id : String) (o : OrderResult F)
      → IsValid b
      → get b.orders id ≡ some o
      → is_accepted o.status ≡ false
      → get b.pending id ≡ none
  unaccepted-not-pending b id o v found final = elim (Option-cases (get b.pending id)) [
    | inl absent ↦ absent
    | inr (r, pending) ↦
        let (p, there, a) = v.book.accepted id r pending in
        absurd (ground (arith, found, there, a.status, final))
  ]

  -- an order of a valid book is accepted or terminal
  shaped-IsTerminal :
      (o : OrderResult F)
      → IsShaped o
      → o.status ≢ OrderStatus.accepted
      → is_terminal o.status ≡ true
  shaped-IsTerminal o shaped not_accepted = ground arith

  cancel_order_known :
      (id : String) (b : Broker F) → contains b.orders id ≡ true → is_ok (cancel_order id b) ≡ true
  unfolding cancel_order get_order
  cancel_order_known id b known = ground arith

  cancel_one_at :
      (id : String) (b c : Broker F)
      → IsValid b
      → cancel_order id b ≡ ok c
      → Cancels b c × (get c.pending id ≡ none)
  cancel_one_at id b c v e =
      let (o, there, cases) = cancel_order_inversion id b c e in
      let valid = cancel_order-IsValid id b c v e in
      elim cases [
        | inl (final, same) ↦ (
          record {
            valid = valid;
            known = λ j h. rw same h;
            gone = λ j h. rw same h;
            terminal_kept = cancel_order-keeps id b c e;
          },
          rw same (unaccepted-not-pending b id o v there final),
        )
        | inr (live, same) ↦ (
          record {
            valid = valid;
            known = λ j h.
                rw same
                  (ground (arith, get-put b.orders id j (terminal o OrderStatus.canceled), h));
            gone = λ j h. rw same (ground (arith, get-remove b.pending id j, h));
            terminal_kept = cancel_order-keeps id b c e;
          },
          rw same (get-remove_self b.pending id),
        )
      ]

  Cancels-trans : (b c d : Broker F) → Cancels b c → Cancels c d → Cancels b d
  Cancels-trans b c d f g = record {
    valid = g.valid;
    known = λ j h. g.known j (f.known j h);
    gone = λ j h. g.gone j (f.gone j h);
    terminal_kept = λ j o h final. g.terminal_kept j o (f.terminal_kept j o h final) final;
  }

  cancel_all_total :
      (ids : List String) (b : Broker F)
      → IsValid b
      → All (λ id. contains b.orders id ≡ true) ids
      → (c : Broker F) × (cancel_all ids b ≡ ok c)
        × Cancels b c
        × All (λ id. get c.pending id ≡ none) ids
  unfolding cancel_all
  cancel_all_total [] b v known = (
    b,
    refl,
    record { valid = v; known = λ j h. h; gone = λ j h. h; terminal_kept = λ j o h final. h },
    tt,
  )
  cancel_all_total (id ∷ ids) b v known =
      let (c, e) = value_of (cancel_order id b) (cancel_order_known id b known.0) in
      let (first, out) = cancel_one_at id b c v e in
      let (d, e', rest, outs) =
        cancel_all_total ids c first.valid (All-map (λ j h. first.known j h) ids known.1) in
      (d, ground (arith, e, e'), Cancels-trans b c d first rest, (rest.gone id out, outs))

  All-contained :
      (orders : Dict String (OrderResult F)) (pending : Dict String (OrderRequest F))
      → ((id : String) (r : OrderRequest F) → get pending id ≡ some r → contains orders id ≡ true)
      → IsDict pending
      → All (λ id. contains orders id ≡ true) (keys pending)
  All-contained orders [] h dict = tt
  All-contained orders ((id, r) ∷ rest) h dict = (
    h id r (get-cons_self id r rest),
    All-contained orders rest
        (λ j s found. h j s (get-cons_ne id j r rest (λ same. cc (found, dict.0, same)) ∙ found))
        dict.1,
  )

  -- every key of a dict has what every listed key has
  at_key :
      (P : String → Type 0) (d : Dict String (OrderRequest F)) (j : String) (r : OrderRequest F)
      → All P (keys d)
      → get d j ≡ some r
      → P j
  at_key P [] j r all found = absurd (not-get-empty j found)
  at_key P ((id, s) ∷ rest) j r all found = elim (get-cons_cases id j s r rest found) [
    | inl e ↦ subst P e.0 all.0
    | inr (_, later) ↦ at_key P rest j r all.1 later
  ]

  -- At the end of a replay `cancel_pending` succeeds in a valid broker: afterwards nothing is
  -- pending, every order is terminal, and an order that was terminal before is what it was.
  pub cancel_pending_closes :
      (b : Broker F)
      → IsValid b
      → (c : Broker F) × (cancel_pending b ≡ ok c)
        × IsValid c
        × ((id : String) → get c.pending id ≡ none)
        × ((id : String) (o : OrderResult F)
            → get c.orders id ≡ some o
            → is_terminal o.status ≡ true)
        × ((id : String) (o : OrderResult F)
            → get b.orders id ≡ some o
            → is_terminal o.status ≡ true
            → get c.orders id ≡ some o)
  unfolding cancel_pending
  cancel_pending_closes b v =
      let (c, e, steps, outs) = cancel_all_total (keys b.pending) b v (
        All-contained b.orders b.pending
          (λ id r h. let (o, there, _) = v.book.accepted id r h in ground (arith, there))
          v.book.distinct) in
      let none_left : (id : String) → get c.pending id ≡ none = λ id.
        elim (Option-cases (get b.pending id)) [
          | inl absent ↦ steps.gone id absent
          | inr (r, found) ↦ at_key (λ j. get c.pending j ≡ none) b.pending id r outs found
        ] in
      (
        c,
        e,
        steps.valid,
        none_left,
        (λ id o found.
            shaped-IsTerminal o (steps.valid.book.shaped id o found)
              (λ st. cc (none_left id, steps.valid.book.waiting id o found st))),
        steps.terminal_kept,
      )
