-- ===== src/Broker/Calls.antt =====
-- services/backtest/broker.py: what `submit` and `cancel_order` do to a valid broker.
use carcharoth.Base.{
  String, some, true, false, is_some, arith, ◌≡◌, ◌≢◌, ◌⊎◌, inl, inr, refl, ◌∙◌, sym, subst,
  Option-cases, Bool-cases,
}
use carcharoth.Base.Eq.{string_eq}
use carcharoth.Base.Float.{Float, ◌≼◌, nought}
use carcharoth.Base.Dict.{get, put, remove, get-put_ne, not-get-empty}
use carcharoth.Base.Result.{ok}
use carcharoth.Domain.{OrderRequest, OrderResult, OrderStatus, is_terminal, is_accepted, Time}
use carcharoth.Broker.Account.{Broker, init}
use carcharoth.Broker.Orders.{accepted_order, submit, terminal, get_order, cancel_order}
use carcharoth.Broker.Book.{Awaits, put-IsBook, settle-IsBook}
use carcharoth.Broker.Invariant.{IsValid}

module _ {F : Type 0} ⦃num : Float F⦄ where
  pub init-IsValid :
      (capital spread slippage margin : F) → IsValid (init capital spread slippage margin)
  unfolding init
  init-IsValid capital spread slippage margin = record {
    book = record {
      distinct = tt;
      accepted = λ id r h. absurd (not-get-empty id h);
      waiting = λ id o h s. absurd (not-get-empty id h);
      shaped = λ id o h. absurd (not-get-empty id h);
      sized = λ id r h. absurd (not-get-empty id h);
    };
    open_ = λ s h e. absurd (not-get-empty s e);
  }

  -- What a successful `submit` has checked, and the broker it leaves.
  pub submit_inversion :
      (id : String) (r : OrderRequest F) (b b' : Broker F) (o : OrderResult F)
      → submit id r b ≡ ok (o, b')
      → (as_of : Time) × (b.as_of ≡ some as_of)
        × (r.qty ≼ nought ≡ false)
        × (is_some (get b.closes r.symbol) ≡ true)
        × (o ≡ accepted_order id r as_of)
        × (b' ≡ record b {
          orders = put b.orders id (accepted_order id r as_of);
          pending = put b.pending id r;
        })
  unfolding submit
  submit_inversion id r b b' o h = elim (Option-cases b.as_of) [
    | inl unset ↦ absurd (ground (arith, h, unset))
    | inr (as_of, set) ↦ (
      as_of,
      set,
      ground (arith, h, set),
      ground (arith, h, set),
      ground (arith, h, set),
      ground (arith, h, set),
    )
  ]

  accepted_order-Awaits :
      (id : String) (r : OrderRequest F) (as_of : Time) → Awaits id r (accepted_order id r as_of)
  unfolding accepted_order
  accepted_order-Awaits id r as_of = record {
    status = refl;
    id_kept = refl;
    symbol = refl;
    side = refl;
    qty = refl;
    client = refl;
  }

  pub submit-IsValid :
      (id : String) (r : OrderRequest F) (b b' : Broker F) (o : OrderResult F)
      → IsValid b
      → submit id r b ≡ ok (o, b')
      → IsValid b'
  submit-IsValid id r b b' o v h =
      let (as_of, set, sized, priced, eo, eb) = submit_inversion id r b b' o h in
      subst IsValid (sym eb) (record {
        book =
            put-IsBook v.book id r (accepted_order id r as_of) (accepted_order-Awaits id r as_of)
              (unfold accepted_order in (refl, refl)) sized;
        open_ = v.open_;
      })

  -- A successful `cancel_order` leaves an order that is not accepted alone, and else cancels it.
  pub cancel_order_inversion :
      (id : String) (b b' : Broker F)
      → cancel_order id b ≡ ok b'
      → (o : OrderResult F) × (get b.orders id ≡ some o)
        × (((is_accepted o.status ≡ false) × (b' ≡ b))
            ⊎ ((is_accepted o.status ≡ true)
                × (b' ≡ record b {
                  pending = remove b.pending id;
                  orders = put b.orders id (terminal o OrderStatus.canceled);
                })))
  unfolding cancel_order get_order
  cancel_order_inversion id b b' h = elim (Option-cases (get b.orders id)) [
    | inl unknown ↦ absurd (ground (arith, h, unknown))
    | inr (o, found) ↦ (
      o,
      found,
      elim (Bool-cases (is_accepted o.status)) [
        | inl live ↦ inr (live, ground (arith, h, found, live))
        | inr final ↦ inl (final, ground (arith, h, found, final))
      ],
    )
  ]

  pub cancel_order-IsValid :
      (id : String) (b b' : Broker F) → IsValid b → cancel_order id b ≡ ok b' → IsValid b'
  cancel_order-IsValid id b b' v h =
      let (o, found, cases) = cancel_order_inversion id b b' h in
      elim cases [
        | inl (final, e) ↦ subst IsValid (sym e) v
        | inr (live, e) ↦ subst IsValid (sym e) (record {
          book =
              settle-IsBook v.book id (terminal o OrderStatus.canceled) (unfold terminal in refl)
                (unfold terminal in (refl, refl));
          open_ = v.open_;
        })
      ]

  -- `cancel_order` keeps a terminal order, and every other order.
  pub cancel_order-keeps :
      (id : String) (b b' : Broker F)
      → cancel_order id b ≡ ok b'
      → (j : String) (o : OrderResult F) → get b.orders j ≡ some o
      → is_terminal o.status ≡ true
      → get b'.orders j ≡ some o
  cancel_order-keeps id b b' h j o found final =
      let (p, there, cases) = cancel_order_inversion id b b' h in
      elim cases [
        | inl (_, e) ↦ rw e found
        | inr (live, e) ↦
            let ne : id ≢ j = λ same. ground (arith, there, found, same, live, final) in
            rw e (get-put_ne b.orders id j (terminal p OrderStatus.canceled) ne ∙ found)
      ]
