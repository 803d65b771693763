-- ===== src/Broker/Book.antt =====
-- The order book of services/backtest/broker.py: `_orders` and `_pending` together, and the two
-- ways in which the methods change them.
use carcharoth.Base.{String, true, false, none, some, is_some, arith, ◌≡◌, inl, inr, subst}
use carcharoth.Base.Eq.{string_eq}
use carcharoth.Base.Float.{Float, ◌≼◌, nought}
use carcharoth.Base.Dict.{
  Dict, get, put, remove, IsDict, put-IsDict, remove-IsDict, get-put_cases, get-remove_cases,
  get-put_self, get-put_ne, get-remove_ne,
}
use carcharoth.Domain.{OrderRequest, OrderResult, OrderStatus, is_terminal}

module _ {F : Type 0} ⦃num : Float F⦄ where
  -- the order that stands in `_orders` for a pending request
  pub record Awaits (id : String) (r : OrderRequest F) (o : OrderResult F) : Type 0 where
    pub status : o.status ≡ OrderStatus.accepted
    pub id_kept : o.broker_order_id ≡ id
    pub symbol : o.symbol ≡ r.symbol
    pub side : o.side ≡ r.side
    pub qty : o.qty ≡ r.qty
    pub client : o.client_order_id ≡ r.client_order_id

  -- what the fill fields of an order say for its status
  abbrev pub IsShapedAt : OrderStatus → OrderResult F → Type 0
  IsShapedAt OrderStatus.accepted o = (o.filled_qty ≡ nought) × (o.filled_avg_price ≡ none)
  IsShapedAt OrderStatus.filled o =
      (o.filled_qty ≡ o.qty) × (is_some o.filled_avg_price ≡ true) × (is_some o.filled_at ≡ true)
  IsShapedAt OrderStatus.canceled o = (o.filled_qty ≡ nought) × (o.filled_avg_price ≡ none)
  IsShapedAt OrderStatus.rejected o = (o.filled_qty ≡ nought) × (o.filled_avg_price ≡ none)
  IsShapedAt _ o = ⊥

  abbrev pub IsShaped : OrderResult F → Type 0
  IsShaped o = IsShapedAt o.status o

  pub record IsBook (orders : Dict String (OrderResult F)) (pending : Dict String (OrderRequest F))
      : Type 0 where
    pub distinct : IsDict pending
    -- a pending request has its accepted order
    pub accepted :
        (id : String) (r : OrderRequest F)
        → get pending id ≡ some r
        → (o : OrderResult F) × (get orders id ≡ some o) × Awaits id r o
    -- an accepted order is pending
    pub waiting :
        (id : String) (o : OrderResult F)
        → get orders id ≡ some o
        → o.status ≡ OrderStatus.accepted
        → is_some (get pending id) ≡ true
    pub shaped : (id : String) (o : OrderResult F) → get orders id ≡ some o → IsShaped o
    -- no request for nothing, or for less
    pub sized :
        (id : String) (r : OrderRequest F) → get pending id ≡ some r → r.qty ≼ nought ≡ false

  module _ {orders : Dict String (OrderResult F)} {pending : Dict String (OrderRequest F)}
      (book : IsBook orders pending) (id : String) where
    -- a new id with its accepted order
    pub put-IsBook :
        (r : OrderRequest F) (o : OrderResult F)
        → Awaits id r o
        → IsShaped o
        → r.qty ≼ nought ≡ false
        → IsBook (put orders id o) (put pending id r)
    put-IsBook r o awaits shaped sized = record {
      distinct = put-IsDict pending id r book.distinct;
      accepted = λ j s h. elim (get-put_cases pending id j r h) [
        | inl e ↦ (
          o,
          cc (get-put_self orders id o, e.0),
          subst (λ x. Awaits j x o) e.1 (subst (λ k. Awaits k r o) e.0 awaits),
        )
        | inr old ↦
            let (p, found, a) = book.accepted j s old.1 in
            (p, cc (get-put_ne orders id j o old.0, found), a)
      ];
      waiting = λ j p h st. elim (get-put_cases orders id j o h) [
        | inl e ↦ ground (arith, get-put_self pending id r, e.0)
        | inr old ↦ ground (arith, get-put_ne pending id j r old.0, book.waiting j p old.1 st)
      ];
      shaped = λ j p h. elim (get-put_cases orders id j o h) [
        | inl e ↦ subst IsShaped e.1 shaped
        | inr old ↦ book.shaped j p old.1
      ];
      sized = λ j s h. elim (get-put_cases pending id j r h) [
        | inl e ↦ subst (λ (x : OrderRequest F). x.qty ≼ nought ≡ false) e.1 sized
        | inr old ↦ book.sized j s old.1
      ];
    }

    -- an order that is final, and no longer pending
    pub settle-IsBook :
        (o : OrderResult F)
        → is_terminal o.status ≡ true
        → IsShaped o
        → IsBook (put orders id o) (remove pending id)
    settle-IsBook o final shaped = record {
      distinct = remove-IsDict pending id book.distinct;
      accepted = λ j s h.
          let (ne, old) = get-remove_cases pending id j h in
          let (p, found, a) = book.accepted j s old in
          (p, cc (get-put_ne orders id j o ne, found), a);
      waiting = λ j p h st. elim (get-put_cases orders id j o h) [
        | inl e ↦ ground (arith, e.1)
        | inr old ↦ ground (arith, get-remove_ne pending id j old.0, book.waiting j p old.1 st)
      ];
      shaped = λ j p h. elim (get-put_cases orders id j o h) [
        | inl e ↦ subst IsShaped e.1 shaped
        | inr old ↦ book.shaped j p old.1
      ];
      sized = λ j s h. book.sized j s (get-remove_cases pending id j h).1;
    }
