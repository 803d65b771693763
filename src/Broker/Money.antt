-- ===== src/Broker/Money.antt =====
-- services/backtest/broker.py: the money that one fill moves.
use carcharoth.Base.{
  String, Option, none, some, true, false, arith, ap, sym, ◌≡◌, ◌≢◌, ◌⊎◌, inl, inr, refl,
  Bool-cases,
}
use carcharoth.Base.Eq.{string_eq}
use carcharoth.Base.Float.{Float, IsFloat, ◌⊕◌, ◌⊖◌, ◌⊗◌, nought}
use carcharoth.Base.Dict.{Dict, get, get-put_self, get-put_ne, get-remove_self, get-remove_ne}
use carcharoth.Base.Result.{Result, ok, err}
use carcharoth.Domain.{OrderRequest, OrderResult, OrderStatus, Time, Bar}
use carcharoth.Broker.Account.{Holding, Broker}
use carcharoth.Broker.Orders.{terminal}
use carcharoth.Broker.Fills.{
  signed_qty, fill_price, filled_order, settle_holding, conclude_settling, apply_fill,
  conclude_fill, fill_order,
}
use carcharoth.Broker.Holdings.{IsRefused, entry_price_after_total, try_fill_cases}
use carcharoth.Broker.Invariant.{IsValid}

module _ {F : Type 0} ⦃num : Float F⦄ where
  -- the quantity that a fill of `delta` makes of what is held
  abbrev pub quantity_after : Option (Holding F) → F → F
  quantity_after none delta = delta
  quantity_after (some h) delta = h.qty ⊕ delta

  -- what a fill must leave at its symbol: nothing for a position that it closes, and else a holding
  -- of the new quantity
  abbrev pub Settled : Option (Holding F) → F → Option (Holding F) → Type 0
  Settled none delta after = (h : Holding F) × (after ≡ some h) × (h.qty ≡ delta)
  Settled (some old) delta after =
      ((num.eq (old.qty ⊕ delta) nought ≡ true) × (after ≡ none))
      ⊎ ((num.eq (old.qty ⊕ delta) nought ≡ false)
          × ((h : Holding F) × (after ≡ some h) × (h.qty ≡ old.qty ⊕ delta)))

module _ {F : Type 0} ⦃num : Float F⦄ (laws : IsFloat F) where
  settle_holding_effect :
      (holdings holdings' : Dict String (Holding F)) (symbol : String) (held : Option (Holding F))
      (delta price : F)
      → settle_holding holdings symbol held delta price ≡ ok holdings'
      → Settled held delta (get holdings' symbol)
        × ((s : String) → symbol ≢ s → get holdings' s ≡ get holdings s)
  unfolding settle_holding
  settle_holding_effect holdings holdings' symbol none delta price e =
      let h : Holding F = record { qty = delta; avg_entry_price = price } in
      (
        (h, ground (arith, e, get-put_self holdings symbol h), refl),
        λ s ne. ground (arith, e, get-put_ne holdings symbol s h ne),
      )
  settle_holding_effect holdings holdings' symbol (some old) delta price e =
      elim (Bool-cases (num.eq (old.qty ⊕ delta) nought)) [
        | inl closed ↦ (
          inl (closed, ground (arith, e, closed, get-remove_self holdings symbol)),
          λ s ne. ground (arith, e, closed, get-remove_ne holdings symbol s ne),
        )
        | inr left_over ↦
            let (avg, ea) = entry_price_after_total laws old delta price left_over in
            let h : Holding F = record { qty = old.qty ⊕ delta; avg_entry_price = avg } in
            (
              inr (
                left_over,
                (h, ground (arith, e, left_over, ea, get-put_self holdings symbol h), refl),
              ),
              λ s ne. ground (arith, e, left_over, ea, get-put_ne holdings symbol s h ne),
            )
      ]

  apply_fill_inversion :
      (b b' : Broker F) (r : OrderRequest F) (price : F)
      → apply_fill b r price ≡ (ok tt, b')
      → (holdings' : Dict String (Holding F)) × (settle_holding b.holdings r.symbol
            (get b.holdings r.symbol)
            (signed_qty r)
            price
          ≡ ok holdings')
        × (record b { cash = b.cash ⊖ signed_qty r ⊗ price; holdings = holdings' } ≡ b')
  unfolding apply_fill conclude_settling
  apply_fill_inversion b b' r price e =
      go (settle_holding b.holdings r.symbol (get b.holdings r.symbol) (signed_qty r) price) refl e
    where
      go :
          (held : Result (Dict String (Holding F)))
          → settle_holding b.holdings r.symbol (get b.holdings r.symbol) (signed_qty r) price ≡ held
          → conclude_settling (record b { cash = b.cash ⊖ signed_qty r ⊗ price }) held ≡ (ok tt, b')
          → (holdings' : Dict String (Holding F)) × (settle_holding b.holdings r.symbol
                (get b.holdings r.symbol)
                (signed_qty r)
                price
              ≡ ok holdings')
            × (record b { cash = b.cash ⊖ signed_qty r ⊗ price; holdings = holdings' } ≡ b')
      go (ok holdings') eh out = (holdings', eh, ap (λ p. p.1) out)
      go (err x) eh out = cc (ap (λ p. p.0) out)

  -- A fill moves exactly its signed quantity into the position of its symbol and pays for it from
  -- cash: a position that comes to zero is dropped, and no other position changes.
  pub apply_fill_accounts :
      (b b' : Broker F) (r : OrderRequest F) (price : F)
      → apply_fill b r price ≡ (ok tt, b')
      → (b'.cash ≡ b.cash ⊖ signed_qty r ⊗ price)
        × Settled (get b.holdings r.symbol) (signed_qty r) (get b'.holdings r.symbol)
        × ((s : String) → r.symbol ≢ s → get b'.holdings s ≡ get b.holdings s)
  apply_fill_accounts b b' r price e =
      let (holdings', eh, rest) = apply_fill_inversion b b' r price e in
      let same : b'.holdings ≡ holdings' = ap (λ (x : Broker F). x.holdings) (sym rest) in
      let (settled, others) =
        settle_holding_effect b.holdings holdings' r.symbol (get b.holdings r.symbol) (signed_qty r)
          price eh in
      (ap (λ (x : Broker F). x.cash) (sym rest), rw same settled, λ s ne. rw same (others s ne))

  -- When the bar of a pending order arrives, either the order is filled, at the price that
  -- `_fill_price` gives for the bar's open and with the money and the position moved by just that
  -- fill, or it is rejected and cash and positions are what they were: then the open is not above
  -- zero, or the order makes the position larger and costs more than buying power.
  pub fill_order_atomic :
      (b b' : Broker F) (id : String) (r : OrderRequest F) (as_of : Time) (bar : Bar F)
      → IsValid b
      → get b.pending id ≡ some r
      → fill_order b id r as_of (some bar) ≡ ok b'
      → (o : OrderResult F) × (get b'.orders id ≡ some o)
        × (((o.status ≡ OrderStatus.rejected)
              × IsRefused b r bar.open_price
              × (b'.cash ≡ b.cash)
              × (b'.holdings ≡ b.holdings))
            ⊎ ((o.status ≡ OrderStatus.filled)
                × ((price : F) × (fill_price b r.side bar.open_price ≡ ok price)
                    × (o.filled_avg_price ≡ some price)
                    × (o.filled_qty ≡ r.qty)
                    × (b'.cash ≡ b.cash ⊖ signed_qty r ⊗ price)
                    × Settled (get b.holdings r.symbol) (signed_qty r) (get b'.holdings r.symbol))))
  unfolding fill_order conclude_fill
  fill_order_atomic b b' id r as_of bar v found e =
      let (current, there, _) = v.book.accepted id r found in
      elim (try_fill_cases laws b r bar.open_price v.open_ (v.book.sized id r found)) [
        | inl (bad, refused) ↦
            let o = terminal current OrderStatus.rejected in
            (
              o,
              ground (arith, e, there, bad, get-put_self b.orders id o),
              inl (
                unfold terminal in refl,
                refused,
                ground (arith, e, there, bad),
                ground (arith, e, there, bad),
              ),
            )
        | inr (price, holdings', good, open_, priced, applied) ↦
            let (cash, settled, _) = apply_fill_accounts b _ r price applied in
            let same : b'.holdings ≡ holdings' = ground (arith, e, there, good) in
            let o = filled_order id current r price as_of in
            (
              o,
              ground (arith, e, there, good, get-put_self b.orders id o),
              inr (
                unfold filled_order in refl,
                (
                  price,
                  priced,
                  unfold filled_order in refl,
                  unfold filled_order in refl,
                  ground (arith, e, there, good),
                  rw same settled,
                ),
              ),
            )
      ]
