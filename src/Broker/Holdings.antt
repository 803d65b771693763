-- ===== src/Broker/Holdings.antt =====
-- services/backtest/broker.py: the holdings that a fill leaves.
use carcharoth.Base.{
  String, true, false, Option, none, some, arith, ◌≡◌, inl, inr, Bool-cases, subst, ◌⊎◌, refl,
}
use carcharoth.Base.Eq.{string_eq}
use carcharoth.Base.Float.{Float, IsFloat, ◌⊕◌, ◌⊖◌, ◌⊗◌, ◌≺◌, ◌≼◌, nought}
use carcharoth.Base.Dict.{Dict, get, put, remove, get-put_cases, get-remove_cases}
use carcharoth.Base.Result.{Error, ok, err, value_of}
use carcharoth.Domain.{OrderRequest, Side}
use carcharoth.Broker.Account.{Holding, Broker, get_account_state}
use carcharoth.Broker.Fills.{
  held_qty, signed_qty, entry_price_after, settle_holding, apply_fill, fill_price,
  validate_buying_power, try_fill, conclude_settling, conclude_try, apply_if_funded, fill_at,
}

module _ {F : Type 0} ⦃num : Float F⦄ where
  -- every holding is of a quantity that is not zero
  abbrev pub IsOpen : Dict String (Holding F) → Type 0
  IsOpen holdings =
      (symbol : String) (h : Holding F) → get holdings symbol ≡ some h → num.eq h.qty nought ≡ false

  put-IsOpen :
      (holdings : Dict String (Holding F)) (symbol : String) (h : Holding F)
      → IsOpen holdings
      → num.eq h.qty nought ≡ false
      → IsOpen (put holdings symbol h)
  put-IsOpen holdings symbol h keep new s x found = elim (get-put_cases holdings symbol s h found) [
    | inl e ↦ subst (λ (y : Holding F). num.eq y.qty nought ≡ false) e.1 new
    | inr old ↦ keep s x old.1
  ]

  remove-IsOpen :
      (holdings : Dict String (Holding F)) (symbol : String)
      → IsOpen holdings
      → IsOpen (remove holdings symbol)
  remove-IsOpen holdings symbol keep s x found =
      keep s x (get-remove_cases holdings symbol s found).1

  -- why a fill is refused: the open is not a price, or the order makes the position larger and costs
  -- more than buying power
  abbrev pub IsRefused : Broker F → OrderRequest F → F → Type 0
  IsRefused b r opening =
      let held = held_qty (get b.holdings r.symbol) in
      (opening ≼ nought ≡ true)
      ⊎ ((price : F) × (fill_price b r.side opening ≡ ok price)
          × ((get_account_state b).buying_power ≺ r.qty ⊗ price ≡ true)
          × (num.abs (held ⊕ signed_qty r) ≼ num.abs held ≡ false))

  fill_price_refused :
      (b : Broker F) (side : Side) (opening : F)
      → fill_price b side opening ≡ err Error.broker_error
      → opening ≼ nought ≡ true
  unfolding fill_price
  fill_price_refused b side opening h = ground (arith, h)

  validate_refused :
      (b : Broker F) (r : OrderRequest F) (price : F)
      → validate_buying_power b r price ≡ err Error.broker_error
      → ((get_account_state b).buying_power ≺ r.qty ⊗ price ≡ true)
        × (num.abs (held_qty (get b.holdings r.symbol) ⊕ signed_qty r)
              ≼ num.abs (held_qty (get b.holdings r.symbol))
            ≡ false)
  unfolding validate_buying_power
  validate_refused b r price h = (ground (arith, h), ground (arith, h))

module _ {F : Type 0} ⦃num : Float F⦄ (laws : IsFloat F) where
  pub entry_price_after_total :
      (h : Holding F) (delta price : F)
      → num.eq (h.qty ⊕ delta) nought ≡ false
      → (avg : F) × (entry_price_after h delta price ≡ ok avg)
  unfolding entry_price_after
  entry_price_after_total h delta price n =
      value_of (entry_price_after h delta price) (ground (arith, laws.abs-zero (h.qty ⊕ delta), n))

  -- the holdings after a fill, on every branch
  settle_holding_total :
      (holdings : Dict String (Holding F)) (symbol : String) (held : Option (Holding F))
      (delta price : F)
      → IsOpen holdings
      → num.eq delta nought ≡ false
      → (holdings' : Dict String (Holding F)) × (settle_holding holdings symbol held delta price
          ≡ ok holdings')
        × IsOpen holdings'
  unfolding settle_holding
  settle_holding_total holdings symbol none delta price keep n = (
    put holdings symbol (record { qty = delta; avg_entry_price = price }),
    refl,
    put-IsOpen holdings symbol _ keep n,
  )
  settle_holding_total holdings symbol (some h) delta price keep n =
      elim (Bool-cases (num.eq (h.qty ⊕ delta) nought)) [
        | inl closed ↦
            (remove holdings symbol, ground (arith, closed), remove-IsOpen holdings symbol keep)
        | inr left_over ↦
            let (avg, e) = entry_price_after_total h delta price left_over in
            (
              put holdings symbol (record { qty = h.qty ⊕ delta; avg_entry_price = avg }),
              ground (arith, left_over, e),
              put-IsOpen holdings symbol _ keep left_over,
            )
      ]

  signed_qty-not-zero :
      (r : OrderRequest F) → r.qty ≼ nought ≡ false → num.eq (signed_qty r) nought ≡ false
  unfolding signed_qty
  signed_qty-not-zero r h = ground (arith, h, laws.not-zero_of_not-le r.qty, laws.neg-zero r.qty)

  pub apply_fill_total :
      (b : Broker F) (r : OrderRequest F) (price : F)
      → IsOpen b.holdings
      → r.qty ≼ nought ≡ false
      → (holdings' : Dict String (Holding F)) × (apply_fill b r price
          ≡ (ok tt, record b { cash = b.cash ⊖ signed_qty r ⊗ price; holdings = holdings' }))
        × IsOpen holdings'
  unfolding apply_fill conclude_settling
  apply_fill_total b r price keep sized =
      let (holdings', e, open_) =
        settle_holding_total b.holdings r.symbol (get b.holdings r.symbol) (signed_qty r) price keep
          (signed_qty-not-zero r sized) in
      (holdings', rw e refl, open_)

  fill_price_cases :
      (b : Broker F) (side : Side) (opening : F)
      → (fill_price b side opening ≡ err Error.broker_error)
        ⊎ ((price : F) × (fill_price b side opening ≡ ok price))
  unfolding fill_price
  fill_price_cases b side opening = elim (Bool-cases (opening ≼ nought)) [
    | inl bad ↦ inl (ground (arith, bad))
    | inr good ↦ inr (value_of (fill_price b side opening) (ground (arith, good)))
  ]

  validate_cases :
      (b : Broker F) (r : OrderRequest F) (price : F)
      → (validate_buying_power b r price ≡ err Error.broker_error)
        ⊎ (validate_buying_power b r price ≡ ok tt)
  unfolding validate_buying_power
  validate_cases b r price = ground arith

  -- The body of the `try` raises a `BrokerError` with the broker as it was, or fills the order at a price.
  pub try_fill_cases :
      (b : Broker F) (r : OrderRequest F) (opening : F)
      → IsOpen b.holdings
      → r.qty ≼ nought ≡ false
      → ((try_fill b r opening ≡ (err Error.broker_error, b)) × IsRefused b r opening)
        ⊎ ((price : F) × (holdings' : Dict String (Holding F)) × (try_fill b r opening
              ≡ (ok price, record b { cash = b.cash ⊖ signed_qty r ⊗ price; holdings = holdings' }))
            × IsOpen holdings'
            × (fill_price b r.side opening ≡ ok price)
            × (apply_fill b r price
                ≡ (ok tt, record b { cash = b.cash ⊖ signed_qty r ⊗ price; holdings = holdings' })))
  unfolding try_fill fill_at apply_if_funded conclude_try
  try_fill_cases b r opening keep sized = elim (fill_price_cases b r.side opening) [
    | inl bad ↦ inl (rw bad refl, inl (fill_price_refused b r.side opening bad))
    | inr (price, priced) ↦ elim (validate_cases b r price) [
      | inl short ↦
          let (poor, larger) = validate_refused b r price short in
          inl (rw (priced, short) refl, inr (price, priced, poor, larger))
      | inr funded ↦
          let (holdings', e, open_) = apply_fill_total b r price keep sized in
          inr (price, holdings', rw (priced, funded, e) refl, open_, priced, e)
    ]
  ]
