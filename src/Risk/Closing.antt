-- ===== src/Risk/Closing.antt =====
-- risk/basic.py: what `assess` does with a symbol that holds a position, and what the broker of a
-- backtest, services/backtest/broker.py, makes of the order.
use carcharoth.Base.{
  String, [], ◌∷◌, true, false, none, some, map, arith, ◌≡◌, refl, sym, ap, inl, inr, ◌∙◌,
  Bool-cases, if◌then◌else◌,
}
use carcharoth.Base.Eq.{◌==◌, string_eq}
use carcharoth.Base.Float.{Float, ◌⊕◌, ◌⊖◌, ◌⊗◌, ◌≺◌, ◌≼◌, nought}
use carcharoth.Base.Format.{Format}
use carcharoth.Base.Dict.{Dict, get, remove, get-remove_self}
use carcharoth.Base.Result.{ok}
use carcharoth.Domain.{
  Side, Position, AccountState, Quote, ExposureIntent, RiskDecision, OrderRequest,
}
use carcharoth.Broker.Account.{Holding, Broker, position_of, get_account_state}
use carcharoth.Broker.Fills.{signed_qty, settle_holding, conclude_settling, apply_fill}
use carcharoth.Risk.{RiskConfig, assess_close, assess_transition, assess}

-- Facts of IEEE 754 about the sign of a double. A double is finite where it and its negation add up
-- to zero.
pub record IsSigned (F : Type 0) ⦃num : Float F⦄ : Type 0 where
  pub abs_positive : (x : F) → nought ≺ x ≡ true → num.abs x ≡ x
  pub abs_negative : (x : F) → x ≺ nought ≡ true → num.abs x ≡ num.neg x
  pub abs_zero : (x : F) → num.eq x nought ≡ true → num.abs x ≼ nought ≡ true
  pub trichotomy :
      (x : F)
      → num.eq (x ⊕ num.neg x) nought ≡ true
      → nought ≺ x ≡ false
      → num.eq x nought ≡ false
      → x ≺ nought ≡ true

module _ {F : Type 0} ⦃num : Float F⦄ where
  -- the position that the broker reports for a holding
  get-positions :
      (b : Broker F) (holdings : Dict String (Holding F)) (symbol : String) (h : Holding F)
      → get holdings symbol ≡ some h
      → (p : Position F) × (get (map (λ entry. (entry.0, position_of b entry)) holdings) symbol
          ≡ some p)
        × (p.qty ≡ h.qty)
  unfolding get
  get-positions b [] symbol h found = cc
  get-positions b ((k, x) ∷ holdings) symbol h found = elim (Bool-cases (k == symbol)) [
    | inl same ↦
        let e : x ≡ h = ground (arith, found, same) in
        (position_of b (k, x), rw same refl, unfold position_of in ap (λ (y : Holding F). y.qty) e)
    | inr differs ↦
        let (p, there, qty) = get-positions b holdings symbol h (ground (arith, found, differs)) in
        (p, rw differs there, qty)
  ]

  -- a fill that brings a position to zero, whatever the price
  apply_fill-closes :
      (b : Broker F) (r : OrderRequest F) (price : F) (h : Holding F)
      → get b.holdings r.symbol ≡ some h
      → num.eq (h.qty ⊕ signed_qty r) nought ≡ true
      → (b' : Broker F) × (apply_fill b r price ≡ (ok tt, b')) × (get b'.holdings r.symbol ≡ none)
  unfolding apply_fill settle_holding conclude_settling
  apply_fill-closes b r price h found closed = (
    record b { cash = b.cash ⊖ signed_qty r ⊗ price; holdings = remove b.holdings r.symbol },
    rw (found, closed) refl,
    get-remove_self b.holdings r.symbol,
  )

module _ {F : Type 0} ⦃num : Float F⦄ ⦃fmt : Format F⦄ where
  -- the order of an approved close
  assess-close :
      (config : RiskConfig F) (intent : ExposureIntent F) (account : AccountState F)
      (quote : Quote F) (p : Position F) (d : RiskDecision F)
      → get account.positions intent.symbol ≡ some p
      → assess config intent account quote ≡ ok d
      → d.approved ≡ true
      → (d.qty ≡ num.abs p.qty)
        × (d.side ≡ some (if nought ≺ p.qty then Side.sell else Side.buy))
        × (num.abs p.qty ≼ nought ≡ false)
  unfolding assess assess_transition assess_close
  assess-close config intent account quote p d held h approved = ground arith

  closing_qty :
      (laws : IsSigned F) (q : F) (r : OrderRequest F)
      → num.eq (q ⊕ num.neg q) nought ≡ true
      → num.abs q ≼ nought ≡ false
      → r.qty ≡ num.abs q
      → r.side ≡ (if nought ≺ q then Side.sell else Side.buy)
      → num.eq (q ⊕ signed_qty r) nought ≡ true
  unfolding signed_qty
  closing_qty laws q r finite sized qty side = elim (Bool-cases (nought ≺ q)) [
    | inl up ↦
        let sells : r.side ≡ Side.sell = ground (arith, side, up) in
        rw (sells, qty, laws.abs_positive q up) finite
    | inr not_up ↦
        let buys : r.side ≡ Side.buy = ground (arith, side, not_up) in
        let not_zero : num.eq q nought ≡ false = ground (arith, laws.abs_zero q, sized) in
        let down = laws.trichotomy q finite not_up not_zero in
        rw (buys, qty, laws.abs_negative q down) finite
  ]

  -- An approved decision on a symbol that the broker holds a finite quantity of closes the position,
  -- whatever the target is: the order with its side and quantity is of more than zero, and the
  -- broker can fill it at any price, after which it holds nothing of the symbol.
  pub assess_closes_all :
      (laws : IsSigned F) (config : RiskConfig F) (b : Broker F) (intent : ExposureIntent F)
      (quote : Quote F) (h : Holding F) (d : RiskDecision F) (r : OrderRequest F) (price : F)
      → get b.holdings intent.symbol ≡ some h
      → num.eq (h.qty ⊕ num.neg h.qty) nought ≡ true
      → assess config intent (get_account_state b) quote ≡ ok d
      → d.approved ≡ true
      → r.symbol ≡ intent.symbol
      → some r.side ≡ d.side
      → r.qty ≡ d.qty
      → (r.qty ≼ nought ≡ false)
        × ((b' : Broker F) × (apply_fill b r price ≡ (ok tt, b'))
            × (get b'.holdings intent.symbol ≡ none))
  unfolding get_account_state
  assess_closes_all laws config b intent quote h d r price held finite assessed approved symbol side
        qty =
      let (p, there, same) = get-positions b b.holdings intent.symbol h held in
      let (asked, on, sized) =
        assess-close config intent (get_account_state b) quote p d there assessed approved in
      let amount : r.qty ≡ num.abs h.qty = qty ∙ asked ∙ ap num.abs same in
      let big : num.abs h.qty ≼ nought ≡ false = ap (λ q. num.abs q ≼ nought) (sym same) ∙ sized in
      let way : r.side ≡ (if nought ≺ h.qty then Side.sell else Side.buy) =
        ground (arith, side, on, same) in
      let (b', fills, gone) =
        apply_fill-closes b r price h (ap (get b.holdings) symbol ∙ held)
          (closing_qty laws h.qty r finite big amount way) in
      (ap (λ q. q ≼ nought) amount ∙ big, (b', fills, ap (get b'.holdings) (sym symbol) ∙ gone))
