-- ===== src/Broker/Follows.antt =====
-- services/backtest/broker.py: the ids of the book over its operations.
use carcharoth.Base.{
  String, List, [], ◌∷◌, Option, none, some, arith, ◌≡◌, refl, sym, ◌∙◌, ap, subst, inl, inr,
  Bool-cases, Option-cases,
}
use carcharoth.Base.Eq.{◌==◌, string_eq}
use carcharoth.Base.Float.{Float}
use carcharoth.Base.Dict.{Dict, get, put, get-put, get-put_cases}
use carcharoth.Base.Result.{Result, ok, err, >>=-eq-ok, ok-inj, is_broker_error}
use carcharoth.Domain.{OrderRequest, OrderResult, OrderStatus, Time, Bar}
use carcharoth.Session.{MarketZone}
use carcharoth.Broker.Account.{Holding, Broker, require_time}
use carcharoth.Broker.Orders.{terminal, cancel_order, cancel_all}
use carcharoth.Broker.Fills.{
  try_fill, fill_price, validate_buying_power, apply_fill, filled_order, conclude_fill, fill_order,
  conclude_settling, conclude_try, apply_if_funded, fill_at, fill_all, fill_pending, mark_to_market,
  roll_session,
}
use carcharoth.Broker.Calls.{cancel_order_inversion}

-- the book has the ids it had, each order under its own id if it was
pub record Follows {F : Type 0} (before after : Dict String (OrderResult F)) : Type 0 where
  pub back :
      (id : String) (o : OrderResult F)
      → get after id ≡ some o
      → (p : OrderResult F) × (get before id ≡ some p)
        × (p.broker_order_id ≡ id → o.broker_order_id ≡ id)
  pub forth :
      (id : String) (p : OrderResult F)
      → get before id ≡ some p
      → (o : OrderResult F) × (get after id ≡ some o)

module _ {F : Type 0} where
  pub Follows-refl : (d : Dict String (OrderResult F)) → Follows d d
  Follows-refl d = record { back = λ id o h. (o, h, λ e. e); forth = λ id p h. (p, h) }

  pub Follows-trans :
      (c d e : Dict String (OrderResult F)) → Follows c d → Follows d e → Follows c e
  Follows-trans c d e f g = record {
    back = λ id o h.
        let (p, hp, up) = g.back id o h in
        let (q, hq, down) = f.back id p hp in (q, hq, λ own. up (down own));
    forth = λ id p h. let (o, ho) = f.forth id p h in g.forth id o ho;
  }

  -- an order takes the place of one that is there
  put-Follows :
      (d : Dict String (OrderResult F)) (id : String) (old new : OrderResult F)
      → get d id ≡ some old
      → (old.broker_order_id ≡ id → new.broker_order_id ≡ id)
      → Follows d (put d id new)
  put-Follows d id old new there named = record {
    back = λ j o found. elim (get-put_cases d id j new found) [
      | inl (e, same) ↦ (
        old,
        subst (λ k. get d k ≡ some old) e there,
        subst (λ k. old.broker_order_id ≡ k → o.broker_order_id ≡ k) e
            (subst (λ n. old.broker_order_id ≡ id → n.broker_order_id ≡ id) same named),
      )
      | inr (_, kept) ↦ (o, kept, λ own. own)
    ];
    forth = λ j p found. elim (Bool-cases (id == j)) [
      | inl e ↦ (new, ground (arith, get-put d id j new, e))
      | inr other ↦ (p, ground (arith, get-put d id j new, other, found))
    ];
  }

module _ {F : Type 0} ⦃num : Float F⦄ where
  pub cancel_order-Follows :
      (id : String) (b c : Broker F) → cancel_order id b ≡ ok c → Follows b.orders c.orders
  unfolding terminal
  cancel_order-Follows id b c h =
      let (o, there, cases) = cancel_order_inversion id b c h in
      elim cases [
        | inl (_, same) ↦ subst (λ x. Follows b.orders x.orders) (sym same) (Follows-refl b.orders)
        | inr (_, same) ↦
            subst (λ x. Follows b.orders x.orders) (sym same)
              (put-Follows b.orders id o (terminal o OrderStatus.canceled) there (λ own. own))
      ]

  pub cancel_all-Follows :
      (ids : List String) (b c : Broker F) → cancel_all ids b ≡ ok c → Follows b.orders c.orders
  unfolding cancel_all
  cancel_all-Follows [] b c h =
      subst (λ x. Follows b.orders x.orders) (ok-inj h) (Follows-refl b.orders)
  cancel_all-Follows (id ∷ ids) b c h =
      let (d, first, rest) = >>=-eq-ok (cancel_order id b) _ h in
      Follows-trans b.orders d.orders c.orders (cancel_order-Follows id b d first)
        (cancel_all-Follows ids d c rest)

  conclude_settling-orders :
      (paid : Broker F) (held : Result (Dict String (Holding F)))
      → (conclude_settling paid held).1.orders ≡ paid.orders
  unfolding conclude_settling
  conclude_settling-orders paid (err e) = refl
  conclude_settling-orders paid (ok holdings) = refl

  conclude_try-orders :
      (price : F) (out : Result (Unit {0}) × Broker F)
      → (conclude_try price out).1.orders ≡ out.1.orders
  unfolding conclude_try
  conclude_try-orders price (err e, b) = refl
  conclude_try-orders price (ok _, b) = refl

  -- the body of the `try` leaves the orders alone, also where it raises
  try_fill-orders :
      (b : Broker F) (r : OrderRequest F) (opening : F) → (try_fill b r opening).1.orders ≡ b.orders
  unfolding try_fill fill_at apply_if_funded apply_fill
  try_fill-orders b r opening = priced (fill_price b r.side opening)
    where
      funded :
          (price : F) (u : Result (Unit {0})) → (apply_if_funded b r price u).1.orders ≡ b.orders
      funded price (err e) = refl
      funded price (ok _) =
          conclude_try-orders price (apply_fill b r price) ∙ conclude_settling-orders _ _

      priced : (p : Result F) → (fill_at b r p).1.orders ≡ b.orders
      priced (err e) = refl
      priced (ok price) = funded price (validate_buying_power b r price)

  conclude_fill-Follows :
      (b c : Broker F) (id : String) (o : OrderResult F) (r : OrderRequest F) (as_of : Time)
      (outcome : Result F × Broker F)
      → get b.orders id ≡ some o
      → outcome.1.orders ≡ b.orders
      → conclude_fill id o r as_of outcome ≡ ok c
      → Follows b.orders c.orders
  unfolding conclude_fill filled_order terminal
  conclude_fill-Follows b c id o r as_of (ok price, filled) there same h =
      let new = filled_order id o r price as_of in
      let here : Follows b.orders (put b.orders id new) =
        put-Follows b.orders id o new there (λ own. refl) in
      let e : put b.orders id new ≡ c.orders =
        ap (λ d. put d id new) (sym same) ∙ ap (λ x. x.orders) (ok-inj h) in
      subst (Follows b.orders) e here
  conclude_fill-Follows b c id o r as_of (err e, left) there same h =
      elim (Bool-cases (is_broker_error e)) [
        | inl rejected ↦
            let new = terminal o OrderStatus.rejected in
            let left_with : put left.orders id new ≡ c.orders = ground (arith, h, rejected) in
            subst (Follows b.orders) (ap (λ d. put d id new) (sym same) ∙ left_with)
              (put-Follows b.orders id o new there (λ own. own))
        | inr other ↦ absurd (ground (arith, h, other))
      ]

  fill_order-Follows :
      (b c : Broker F) (id : String) (r : OrderRequest F) (as_of : Time) (bar : Option (Bar F))
      → fill_order b id r as_of bar ≡ ok c
      → Follows b.orders c.orders
  unfolding fill_order
  fill_order-Follows b c id r as_of none h =
      subst (λ x. Follows b.orders x.orders) (ok-inj h) (Follows-refl b.orders)
  fill_order-Follows b c id r as_of (some bar) h = elim (Option-cases (get b.orders id)) [
    | inl absent ↦ absurd (ground (arith, h, absent))
    | inr (o, there) ↦
        conclude_fill-Follows b c id o r as_of (try_fill b r bar.open_price) there
          (try_fill-orders b r bar.open_price) (ground (arith, h, there))
  ]

  fill_all-Follows :
      (bars : Dict String (Bar F)) (as_of : Time) (todo : Dict String (OrderRequest F))
      (b c : Broker F)
      → fill_all bars as_of todo b ≡ ok c
      → Follows b.orders c.orders
  unfolding fill_all
  fill_all-Follows bars as_of [] b c h =
      subst (λ x. Follows b.orders x.orders) (ok-inj h) (Follows-refl b.orders)
  fill_all-Follows bars as_of ((id, r) ∷ todo) b c h =
      let (d, first, rest) = >>=-eq-ok (fill_order b id r as_of (get bars r.symbol)) _ h in
      Follows-trans b.orders d.orders c.orders
        (fill_order-Follows b d id r as_of (get bars r.symbol) first)
        (fill_all-Follows bars as_of todo d c rest)

  fill_pending-Follows :
      (bars : Dict String (Bar F)) (b c : Broker F)
      → fill_pending bars b ≡ ok c
      → Follows b.orders c.orders
  unfolding fill_pending
  fill_pending-Follows bars b c h =
      let (as_of, _, rest) = >>=-eq-ok (require_time b) _ h in
      fill_all-Follows bars as_of b.pending b c rest

  pub mark_to_market-Follows :
      ⦃zone : MarketZone⦄ (as_of : Time) (bars : Dict String (Bar F)) (b c : Broker F)
      → mark_to_market as_of bars b ≡ ok c
      → Follows b.orders c.orders
  unfolding mark_to_market
  mark_to_market-Follows ⦃zone⦄ as_of bars b c h =
      let clocked : Broker F = record b {
        last_equity = roll_session b.session_date (zone.local_date as_of) b;
        session_date = some (zone.local_date as_of);
        as_of = some as_of;
      } in
      let (filled, first, rest) = >>=-eq-ok (fill_pending bars clocked) _ h in
      subst (Follows b.orders) (ap (λ x. x.orders) (ok-inj rest))
        (fill_pending-Follows bars clocked filled first)
