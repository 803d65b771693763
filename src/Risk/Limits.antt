-- ===== src/Risk/Limits.antt =====
-- risk/basic.py: the limits on an entry.
use carcharoth.Base.{
  ◌<◌, ◌⊎◌, inl, inr, Bool-cases, Option, map, leb, Bool, true, false, none, some, refl, String,
  if◌then◌else◌, arith, ◌≡◌, length,
}
use carcharoth.Base.Int.{ℤ, pos, ltb_ℤ}
use carcharoth.Base.Eq.{string_eq}
use carcharoth.Base.Float.{
  Float, ◌⊕◌, ◌⊖◌, ◌⊗◌, ◌≺◌, ◌≼◌, nought, one, divide, floor_or_raise, fmin,
}
use carcharoth.Base.Format.{Format}
use carcharoth.Base.Dict.{get, values}
use carcharoth.Base.Result.{Result, ok, ◌>>=◌, >>=-eq-ok, ok-inj}
use carcharoth.Domain.{
  TargetExposure, Side, Position, gross_market_value, current_exposure, AccountState, Quote,
  ExposureIntent, RiskDecision,
}
use carcharoth.Decision.{is_directional}
use carcharoth.Risk.{
  RiskConfig, reject, entry_side, entry_price, gross_exposure, position_budget, affordable_qty,
  available_power, daily_loss_hit, check_exposure, fund_entry, size_entry, price_entry,
  assess_entry, assess_transition, assess,
}

module _ {F : Type 0} ⦃num : Float F⦄ where
  -- the cost of some shares with the slippage that the configuration allows for
  abbrev buffered_cost : RiskConfig F → F → ℤ → F
  buffered_cost config price shares = num.of_int shares ⊗ price ⊗ (one ⊕ config.slippage_buffer)

  -- the shares that the position budget pays for, or, where buying power does not pay for those,
  -- the shares that buying power pays for
  abbrev pub IsFunded : RiskConfig F → AccountState F → F → ℤ → ℤ → Type 0
  IsFunded config account price budgeted shares =
      let power = account.buying_power ⊗ config.buying_power_buffer in
      ((power ≺ buffered_cost config price budgeted ≡ false) × (shares ≡ budgeted))
      ⊎ ((power ≺ buffered_cost config price budgeted ≡ true)
          × ((divide power (price ⊗ (one ⊕ config.slippage_buffer)) >>= floor_or_raise)
              ≡ ok shares))

  -- the size of an entry of `shares` shares at `price`
  pub record IsWithin (config : RiskConfig F) (account : AccountState F) (price : F) (shares : ℤ)
      : Type 0 where
    pub positive : ltb_ℤ shares (pos 1) ≡ false
    pub exposure_fits :
        config.max_total_exposure_pct ⊗ account.equity
          ≺ num.total (map (λ (p : Position F). num.abs p.market_value) (values account.positions))
            ⊕ num.of_int shares ⊗ price
        ≡ false
    pub budgeted : ℤ
    pub budget_pays :
        (divide
            (fmin config.max_position_notional (config.max_position_pct_equity ⊗ account.equity))
            price
          >>= floor_or_raise)
        ≡ ok budgeted
    pub funded : IsFunded config account price budgeted shares

  -- the equity is not below that of the last close, where that was positive, by more than the limit
  abbrev pub HasNoDailyLoss : RiskConfig F → AccountState F → Type 0
  HasNoDailyLoss config account =
      (nought ≺ account.last_equity ≡ false)
      ⊎ ((daily_return : F) × (divide (account.equity ⊖ account.last_equity) account.last_equity
            ≡ ok daily_return)
          × (daily_return ≺ num.neg config.max_daily_loss_pct ≡ false))

  -- a long entry buys at the ask price, and a short one sells at the bid price
  abbrev pub Enters : TargetExposure → Quote F → Option Side → F → Type 0
  Enters target quote side price =
      ((target ≡ TargetExposure.long) × (side ≡ some Side.buy) × (price ≡ quote.ask_price))
      ⊎ ((target ≡ TargetExposure.short) × (side ≡ some Side.sell) × (price ≡ quote.bid_price))

  -- what an approved entry has passed, and what it asks for
  pub record IsSafeEntry (config : RiskConfig F) (intent : ExposureIntent F)
      (account : AccountState F) (quote : Quote F) (d : RiskDecision F) : Type 0 where
    pub no_daily_loss : HasNoDailyLoss config account
    pub room : length account.positions < config.max_open_positions
    pub price : F
    pub enters : Enters intent.target quote d.side price
    pub priced : price ≼ nought ≡ false
    pub shares : ℤ
    pub within : IsWithin config account price shares
    pub qty : d.qty ≡ num.of_int shares

  daily_loss_hit-HasNoDailyLoss :
      (config : RiskConfig F) (account : AccountState F)
      → daily_loss_hit config account ≡ ok false
      → HasNoDailyLoss config account
  unfolding daily_loss_hit
  daily_loss_hit-HasNoDailyLoss config account h =
      elim (Bool-cases (nought ≺ account.last_equity)) [
        | inr no_equity ↦ inl no_equity
        | inl equity ↦
            let m = divide (account.equity ⊖ account.last_equity) account.last_equity in
            let judged : (m >>= λ r. ok (r ≺ num.neg config.max_daily_loss_pct)) ≡ ok false =
              ground (arith, h, equity) in
            let (r, er, last) = >>=-eq-ok m _ judged in inr (r, er, ok-inj last)
      ]

  affordable_qty-IsFunded :
      (config : RiskConfig F) (account : AccountState F) (price : F) (budgeted shares : ℤ)
      → affordable_qty config account price budgeted ≡ ok shares
      → IsFunded config account price budgeted shares
  unfolding affordable_qty available_power
  affordable_qty-IsFunded config account price budgeted shares h =
      let power = account.buying_power ⊗ config.buying_power_buffer in
      elim (Bool-cases (power ≺ buffered_cost config price budgeted)) [
        | inr enough ↦ inl (enough, ground (arith, h, enough))
        | inl short ↦ inr (short, ground (arith, h, short))
      ]

  entry-Enters :
      (target : TargetExposure) (quote : Quote F) (side : Option Side)
      → is_directional target ≡ true
      → side ≡ some (entry_side target)
      → Enters target quote side (entry_price (entry_side target) quote)
  unfolding entry_side entry_price
  entry-Enters TargetExposure.long quote side h e = inl (refl, e, refl)
  entry-Enters TargetExposure.short quote side h e = inr (refl, e, refl)
  entry-Enters TargetExposure.flat quote side h e = cc
  entry-Enters TargetExposure.unchanged quote side h e = cc

module _ {F : Type 0} ⦃num : Float F⦄ ⦃fmt : Format F⦄ where
  -- a test that rejects has failed where the decision is an approval
  passed :
      (b : Bool) (intent : ExposureIntent F) (reason : String) (m : Result (RiskDecision F))
      {d : RiskDecision F}
      → (if b then ok (reject intent reason) else m) ≡ ok d
      → d.approved ≡ true
      → (b ≡ false) × (m ≡ ok d)
  unfolding reject
  passed true intent reason m h a = ground arith
  passed false intent reason m h a = (refl, h)

  fund_entry_within :
      (config : RiskConfig F) (intent : ExposureIntent F) (target : TargetExposure)
      (account : AccountState F) (side : Side) (price : F) (first : ℤ) (d : RiskDecision F)
      → fund_entry config intent target account side price first ≡ ok d
      → d.approved ≡ true
      → (shares : ℤ) × (affordable_qty config account price first ≡ ok shares)
        × (ltb_ℤ shares (pos 1) ≡ false)
        × (config.max_total_exposure_pct ⊗ account.equity
              ≺ gross_exposure account ⊕ num.of_int shares ⊗ price
            ≡ false)
        × (d.qty ≡ num.of_int shares)
        × (d.side ≡ some side)
  unfolding fund_entry check_exposure
  fund_entry_within config intent target account side price first d h a =
      let (shares, e, rest) = >>=-eq-ok (affordable_qty config account price first) _ h in
      (shares, e, ground arith, ground arith, ground arith, ground arith)

  size_entry-IsWithin :
      (config : RiskConfig F) (intent : ExposureIntent F) (target : TargetExposure)
      (account : AccountState F) (side : Side) (price : F) (d : RiskDecision F)
      → size_entry config intent target account side price ≡ ok d
      → d.approved ≡ true
      → (shares : ℤ) × IsWithin config account price shares
        × (d.qty ≡ num.of_int shares)
        × (d.side ≡ some side)
  unfolding size_entry gross_exposure gross_market_value position_budget
  size_entry-IsWithin config intent target account side price d h a =
      let (budget, eb, rest) = >>=-eq-ok (divide (position_budget config account) price) _ h in
      let (first, ef, rest') = >>=-eq-ok (floor_or_raise budget) _ rest in
      let (shares, e, p, x, q, s) =
        fund_entry_within config intent target account side price first d
          (passed (ltb_ℤ first (pos 1)) intent _ _ rest' a).1 a in
      (
        shares,
        record {
          positive = p;
          exposure_fits = x;
          budgeted = first;
          budget_pays = cc (eb, ef);
          funded = affordable_qty-IsFunded config account price first shares e;
        },
        q,
        s,
      )

  assess_entry_within :
      (config : RiskConfig F) (intent : ExposureIntent F) (target : TargetExposure)
      (account : AccountState F) (quote : Quote F) (d : RiskDecision F)
      → assess_entry config intent target account quote ≡ ok d
      → d.approved ≡ true
      → (daily_loss_hit config account ≡ ok false)
        × (leb config.max_open_positions (length account.positions) ≡ false)
        × (entry_price (entry_side target) quote ≼ nought ≡ false)
        × (size_entry config intent target account
              (entry_side target)
              (entry_price (entry_side target) quote)
            ≡ ok d)
  unfolding assess_entry price_entry
  assess_entry_within config intent target account quote d h a =
      let (hit, eh, rest) = >>=-eq-ok (daily_loss_hit config account) _ h in
      let (no_hit, rest') = passed hit intent _ _ rest a in
      let (room, rest'') =
        passed (leb config.max_open_positions (length account.positions)) intent _ _ rest' a in
      let (priced, sized) =
        passed (entry_price (entry_side target) quote ≼ nought) intent _ _ rest'' a in
      (cc (eh, no_hit), room, priced, sized)

  assess_enters :
      (config : RiskConfig F) (intent : ExposureIntent F) (account : AccountState F)
      (quote : Quote F) (d : RiskDecision F)
      → get account.positions intent.symbol ≡ none
      → assess config intent account quote ≡ ok d
      → d.approved ≡ true
      → (is_directional intent.target ≡ true)
        × (assess_entry config intent intent.target account quote ≡ ok d)
  unfolding assess assess_transition reject current_exposure
  assess_enters config intent account quote d free h a = ground arith

  -- With no position held in the symbol, an approved decision is an entry within every limit: the
  -- equity is not below that of the last close by more than the daily loss limit, fewer positions
  -- are open than the limit, the target is LONG and the ask price is bought at or SHORT and the bid
  -- price sold at, which is positive, and the size is a whole number of at least one share that
  -- fits the gross exposure limit and that the position budget pays for or, where buying power with
  -- its buffers does not pay for that many, that buying power pays for.
  pub assess_entry_limits :
      (config : RiskConfig F) (intent : ExposureIntent F) (account : AccountState F)
      (quote : Quote F) (d : RiskDecision F)
      → get account.positions intent.symbol ≡ none
      → assess config intent account quote ≡ ok d
      → d.approved ≡ true
      → IsSafeEntry config intent account quote d
  assess_entry_limits config intent account quote d free h a =
      let (directional, entry) = assess_enters config intent account quote d free h a in
      let (no_loss, room, priced, sized) =
        assess_entry_within config intent intent.target account quote d entry a in
      let (n, within, q, s) =
        size_entry-IsWithin config intent intent.target account _ _ d sized a in
      record {
        no_daily_loss = daily_loss_hit-HasNoDailyLoss config account no_loss;
        room = ground (arith, room);
        price = entry_price (entry_side intent.target) quote;
        enters = entry-Enters intent.target quote d.side directional s;
        priced = priced;
        shares = n;
        within = within;
        qty = q;
      }
