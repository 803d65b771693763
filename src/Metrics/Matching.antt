-- ===== src/Metrics/Matching.antt =====
-- analysis/metrics.py: `match_round_trips`. The mutated deques are values; a queue's head is the
-- oldest lot.
pub mod Loop
pub mod OneSided
use carcharoth.Base.{
  ℕ, zero, suc, String, List, [], ◌∷◌, ◌++◌, Bool, true, false, Option, none, some, ◌&&◌, ltb, leb,
  last?, keep, length, or_else, if◌then◌else◌, ◌+◌, map,
}
use carcharoth.Base.Eq.{◌==◌, string_eq}
use carcharoth.Base.Float.{Float, ◌⊖◌, ◌⊗◌, ◌≺◌, nought, fmin}
use carcharoth.Base.Dict.{Dict, get, put}
use carcharoth.Base.Sort.{sort_by}
use carcharoth.Domain.{Time, Side, same_side, TargetExposure, TradeRecord, DecisionRecord}

pub record RoundTrip (F : Type 0) : Type 0 where
  pub symbol : String
  pub direction : TargetExposure
  pub qty : F
  pub entry_price : F
  pub exit_price : F
  pub pnl : F
  pub opened_at : Time
  pub closed_at : Time
  pub exit_reason : String
  pub model_id : String
  pub entry_features : Dict String F
  pub exit_features : Dict String F
  pub entry_prediction : Dict String F
  pub exit_prediction : Dict String F
  pub mae_pct : Option F
  pub mfe_pct : Option F

-- `_Lot`
pub record OpenLot (F : Type 0) : Type 0 where
  pub qty : F
  pub price : F
  pub opened_at : Time
  pub decision : Option (DecisionRecord F)

-- the side of the lots that a trade closes
abbrev pub closed_direction : Side → TargetExposure
closed_direction Side.buy = TargetExposure.short
closed_direction Side.sell = TargetExposure.long

-- what the loop over the closing lots leaves: the quantity that remains, the lots and the trips
pub record Matched (F : Type 0) : Type 0 where
  pub remaining : F
  pub closing : List (OpenLot F)
  pub trips : List (RoundTrip F)

-- the two queues of a symbol
pub record Queues (F : Type 0) : Type 0 where
  pub longs : Dict String (List (OpenLot F))
  pub shorts : Dict String (List (OpenLot F))

module _ {F : Type 0} where
  abbrev pub is_for : String → Side → DecisionRecord F → Bool
  is_for symbol side d = elim d.order_side [
    | none ↦ false
    | some s ↦ d.symbol == symbol && same_side s side
  ]

  abbrev pub earlier_decision : DecisionRecord F → DecisionRecord F → Bool
  earlier_decision a b = leb a.timestamp b.timestamp

  -- the list of `by_symbol_side` for a key
  unfoldable pub decisions_for : List (DecisionRecord F) → String → Side → List (DecisionRecord F)
  unfolding sort_by keep
  decisions_for decisions symbol side =
      keep (is_for symbol side) (sort_by earlier_decision decisions)

  -- `_decision_before`, on records in the order of their timestamps: `bisect_left` counts the earlier
  unfoldable pub decision_before : List (DecisionRecord F) → Time → Option (DecisionRecord F)
  unfolding keep
  decision_before records ts = last? (keep (λ r. ltb r.timestamp ts) records)

  abbrev pub reason_of : Option (DecisionRecord F) → String
  reason_of none = ""
  reason_of (some d) = d.reason

  abbrev pub model_of : Option (DecisionRecord F) → String
  model_of none = ""
  model_of (some d) = d.model_id

  abbrev pub features_of : Option (DecisionRecord F) → Dict String F
  features_of none = []
  features_of (some d) = d.features

  abbrev pub prediction_of : Option (DecisionRecord F) → Dict String F
  prediction_of none = []
  prediction_of (some d) = d.prediction

module _ {F : Type 0} ⦃num : Float F⦄ where
  abbrev pub trip_pnl : Side → F → F → F → F
  trip_pnl Side.buy lot_price price matched = (lot_price ⊖ price) ⊗ matched
  trip_pnl Side.sell lot_price price matched = (price ⊖ lot_price) ⊗ matched

  unfoldable pub round_trip :
      TradeRecord F → Option (DecisionRecord F) → OpenLot F → F → RoundTrip F
  round_trip trade decision lot matched = record {
    symbol = trade.symbol;
    direction = closed_direction trade.side;
    qty = matched;
    entry_price = lot.price;
    exit_price = trade.price;
    pnl = trip_pnl trade.side lot.price trade.price matched;
    opened_at = lot.opened_at;
    closed_at = trade.timestamp;
    exit_reason = reason_of decision;
    model_id = model_of lot.decision;
    entry_features = features_of lot.decision;
    exit_features = features_of decision;
    entry_prediction = prediction_of lot.decision;
    exit_prediction = prediction_of decision;
    mae_pct = none;
    mfe_pct = none;
  }

  -- `lot.qty -= matched`, and `popleft` of a lot that is used up
  unfoldable pub use_lot : OpenLot F → F → List (OpenLot F) → List (OpenLot F)
  use_lot lot matched rest =
      let left = lot.qty ⊖ matched in
      if num.eq left nought then rest else record lot { qty = left } ∷ rest

  abbrev pub add_trip : RoundTrip F → Matched F → Matched F
  add_trip trip m = record m { trips = trip ∷ m.trips }

  -- The `while` loop on fuel. Each turn uses up the first lot or what remains of the trade, so a turn
  -- for each lot and one more are enough.
  unfoldable pub match_lots :
      ℕ → TradeRecord F → Option (DecisionRecord F) → F → List (OpenLot F) → Option (Matched F)
  unfolding use_lot round_trip
  match_lots zero trade decision remaining closing = none
  match_lots (suc fuel) trade decision remaining [] =
      some (record { remaining = remaining; closing = []; trips = [] })
  match_lots (suc fuel) trade decision remaining (lot ∷ rest) =
      let matched = fmin remaining lot.qty in
      let later = match_lots fuel trade decision (remaining ⊖ matched) (use_lot lot matched rest) in
      if nought ≺ remaining
      then elim later [
        | none ↦ none
        | some m ↦ some (add_trip (round_trip trade decision lot matched) m)
      ]
      else some (record { remaining = remaining; closing = lot ∷ rest; trips = [] })

  -- `defaultdict(deque)[symbol]`
  abbrev pub lots_of : Dict String (List (OpenLot F)) → String → List (OpenLot F)
  lots_of lots symbol = or_else (get lots symbol) []

  -- `closing` and `opening` of a trade on a side
  abbrev pub closing_on : Side → Queues F → String → List (OpenLot F)
  closing_on Side.buy q symbol = lots_of q.shorts symbol
  closing_on Side.sell q symbol = lots_of q.longs symbol

  abbrev pub opening_on : Side → Queues F → String → List (OpenLot F)
  opening_on Side.buy q symbol = lots_of q.longs symbol
  opening_on Side.sell q symbol = lots_of q.shorts symbol

  -- the queues after both of a symbol's deques have changed
  unfoldable pub store_lots :
      Side → Queues F → String → List (OpenLot F) → List (OpenLot F) → Queues F
  store_lots Side.buy q symbol closing opening = record {
    longs = put q.longs symbol opening;
    shorts = put q.shorts symbol closing;
  }
  store_lots Side.sell q symbol closing opening = record {
    longs = put q.longs symbol closing;
    shorts = put q.shorts symbol opening;
  }

  -- `if remaining > 0`: what the trade opens
  unfoldable pub open_rest :
      TradeRecord F → Option (DecisionRecord F) → F → List (OpenLot F) → List (OpenLot F)
  open_rest trade decision remaining opening =
      if nought ≺ remaining
      then opening
        ++ (record {
          qty = remaining;
          price = trade.price;
          opened_at = trade.timestamp;
          decision = decision;
        }
            ∷ [])
      else opening

  -- the lots after a trade whose loop has ended
  unfoldable pub settle_match :
      TradeRecord F → Option (DecisionRecord F) → Queues F → Matched F → Queues F
  unfolding store_lots open_rest
  settle_match trade decision q m =
      store_lots trade.side q trade.symbol m.closing
        (open_rest trade decision m.remaining (opening_on trade.side q trade.symbol))

  abbrev pub settle_option :
      TradeRecord F
      → Option (DecisionRecord F)
      → Queues F
      → Option (Matched F)
      → Option (Queues F × List (RoundTrip F))
  settle_option trade decision q none = none
  settle_option trade decision q (some m) = some (settle_match trade decision q m, m.trips)

  -- one trade; `none` where the fuel ran out
  unfoldable pub match_trade :
      List (DecisionRecord F) → TradeRecord F → Queues F → Option (Queues F × List (RoundTrip F))
  unfolding match_lots settle_match decision_before decisions_for
  match_trade decisions trade q =
      let decision =
        decision_before (decisions_for decisions trade.symbol trade.side) trade.timestamp in
      let closing = closing_on trade.side q trade.symbol in
      settle_option trade decision q
        (match_lots (length closing + 2) trade decision trade.qty closing)

  abbrev pub add_trips :
      List (RoundTrip F)
      → Option (Queues F × List (RoundTrip F))
      → Option (Queues F × List (RoundTrip F))
  add_trips trips none = none
  add_trips trips (some (q, more)) = some (q, trips ++ more)

  abbrev pub and_then :
      Option (Queues F × List (RoundTrip F))
      → (Queues F → Option (Queues F × List (RoundTrip F)))
      → Option (Queues F × List (RoundTrip F))
  and_then none next = none
  and_then (some (q, trips)) next = add_trips trips (next q)

  -- the loop over the trades
  unfoldable pub match_trades :
      List (DecisionRecord F)
      → List (TradeRecord F)
      → Queues F
      → Option (Queues F × List (RoundTrip F))
  unfolding match_trade
  match_trades decisions [] q = some (q, [])
  match_trades decisions (trade ∷ trades) q =
      and_then (match_trade decisions trade q) (match_trades decisions trades)

  abbrev pub earlier_trade : TradeRecord F → TradeRecord F → Bool
  earlier_trade a b = leb a.timestamp b.timestamp

  abbrev pub no_lots : Queues F
  no_lots = record { longs = []; shorts = [] }

  -- `match_round_trips`, with the lots that stay open
  unfoldable pub match_round_trips :
      List (TradeRecord F) → List (DecisionRecord F) → Option (Queues F × List (RoundTrip F))
  unfolding match_trades sort_by
  match_round_trips trades decisions = match_trades decisions (sort_by earlier_trade trades) no_lots
