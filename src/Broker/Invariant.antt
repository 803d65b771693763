-- ===== src/Broker/Invariant.antt =====
-- services/backtest/broker.py: what holds of the broker between any two calls, and one round of
-- the loop of `_fill_pending`.
use carcharoth.Base.{String, true, Option, none, some, arith, ◌≡◌, ◌≢◌, inl, inr, refl}
use carcharoth.Base.Eq.{string_eq}
use carcharoth.Base.Float.{Float, IsFloat, ◌⊖◌, ◌⊗◌}
use carcharoth.Base.Dict.{
  get, put, remove, get-put_self, get-put_ne, get-remove_self, get-remove_ne,
}
use carcharoth.Base.Result.{ok}
use carcharoth.Domain.{OrderRequest, OrderResult, OrderStatus, is_terminal, Time, Bar}
use carcharoth.Broker.Account.{Broker}
use carcharoth.Broker.Orders.{terminal}
use carcharoth.Broker.Fills.{signed_qty, filled_order, try_fill, conclude_fill, fill_order}
use carcharoth.Broker.Book.{IsBook, IsShaped, settle-IsBook}
use carcharoth.Broker.Holdings.{IsOpen, try_fill_cases}

module _ {F : Type 0} ⦃num : Float F⦄ where
  -- The orders and the pending requests agree, and no holding is of zero.
  pub record IsValid (b : Broker F) : Type 0 where
    pub book : IsBook b.orders b.pending
    pub open_ : IsOpen b.holdings

  -- what a bar, or its absence, makes of a pending request
  abbrev pub Outcome : Option (Bar F) → Broker F → Broker F → String → OrderRequest F → Type 0
  Outcome none b b' id r = (get b'.pending id ≡ some r) × (get b'.orders id ≡ get b.orders id)
  Outcome (some bar) b b' id r =
      (get b'.pending id ≡ none)
      × ((o : OrderResult F) × (get b'.orders id ≡ some o) × (is_terminal o.status ≡ true))

  pub record FillsOne (bar : Option (Bar F)) (b b' : Broker F) (id : String) (r : OrderRequest F)
      : Type 0 where
    pub valid : IsValid b'
    pub outcome : Outcome bar b b' id r
    pub orders_kept : (j : String) → id ≢ j → get b'.orders j ≡ get b.orders j
    pub pending_kept : (j : String) → id ≢ j → get b'.pending j ≡ get b.pending j

  -- A terminal order takes the place of a pending one, whatever happens to the money.
  settle_fills :
      (b b' : Broker F) (id : String) (r : OrderRequest F) (o : OrderResult F) (bar : Bar F)
      → IsValid b
      → IsOpen b'.holdings
      → is_terminal o.status ≡ true
      → IsShaped o
      → b'.orders ≡ put b.orders id o
      → b'.pending ≡ remove b.pending id
      → FillsOne (some bar) b b' id r
  settle_fills b b' id r o bar v open_ final shaped eo ep = record {
    valid = record { book = rw (eo, ep) (settle-IsBook v.book id o final shaped); open_ = open_ };
    outcome =
        (rw ep (get-remove_self b.pending id), (o, rw eo (get-put_self b.orders id o), final));
    orders_kept = λ j ne. rw eo (get-put_ne b.orders id j o ne);
    pending_kept = λ j ne. rw ep (get-remove_ne b.pending id j ne);
  }

module _ {F : Type 0} ⦃num : Float F⦄ (laws : IsFloat F) where
  conclude_fill_total :
      (b : Broker F) (id : String) (r : OrderRequest F) (o : OrderResult F) (as_of : Time)
      (bar : Bar F)
      → IsValid b
      → get b.pending id ≡ some r
      → (b' : Broker F) × (conclude_fill id o r as_of (try_fill b r bar.open_price) ≡ ok b')
        × FillsOne (some bar) b b' id r
  unfolding conclude_fill
  conclude_fill_total b id r o as_of bar v found =
      elim (try_fill_cases laws b r bar.open_price v.open_ (v.book.sized id r found)) [
        | inl (bad, _) ↦ (
          record b {
            orders = put b.orders id (terminal o OrderStatus.rejected);
            pending = remove b.pending id;
          },
          rw bad refl,
          settle_fills b _ id r (terminal o OrderStatus.rejected) bar v v.open_ refl (refl, refl)
              refl refl,
        )
        | inr (price, holdings', good, open_, _, _) ↦ (
          record b {
            cash = b.cash ⊖ signed_qty r ⊗ price;
            holdings = holdings';
            orders = put b.orders id (filled_order id o r price as_of);
            pending = remove b.pending id;
          },
          rw good refl,
          settle_fills b _ id r (filled_order id o r price as_of) bar v open_ refl
              (refl, refl, refl) refl refl,
        )
      ]

  -- One round of the loop: it never raises, and deals with its own order alone.
  pub fill_order_total :
      (b : Broker F) (id : String) (r : OrderRequest F) (as_of : Time) (bar : Option (Bar F))
      → IsValid b
      → get b.pending id ≡ some r
      → (b' : Broker F) × (fill_order b id r as_of bar ≡ ok b') × FillsOne bar b b' id r
  unfolding fill_order
  fill_order_total b id r as_of none v found = (
    b,
    refl,
    record {
      valid = v;
      outcome = (found, refl);
      orders_kept = λ j ne. refl;
      pending_kept = λ j ne. refl;
    },
  )
  fill_order_total b id r as_of (some bar) v found =
      let (o, there, _) = v.book.accepted id r found in
      let (b', e, fills) = conclude_fill_total b id r o as_of bar v found in
      (b', ground (arith, there, e), fills)
