-- ===== src/Metrics/Matching/OneSided.antt =====
-- analysis/metrics.py: the lots that `match_round_trips` leaves open.
use carcharoth.Base.{
  ℕ, zero, suc, ◌+◌, String, List, [], ◌∷◌, ◌++◌, Option, some, All, length, arith, ◌≡◌, ◌⊎◌, inl,
  inr, refl, ap, ◌∙◌, subst, Bool-cases,
}
use carcharoth.Base.Eq.{◌==◌, string_eq}
use carcharoth.Base.Float.{Float, ◌≺◌, nought}
use carcharoth.Base.Dict.{get, put, get-put}
use carcharoth.Base.Sort.{sort_by}
use carcharoth.Domain.{TradeRecord, DecisionRecord, Side}
use carcharoth.Metrics.Matching.{
  and_then, add_trips, open_rest, closing_on, opening_on, store_lots, match_trade, settle_match,
  settle_option, decision_before, decisions_for, match_trades, match_round_trips, earlier_trade,
  no_lots, OpenLot, Matched, Queues, RoundTrip, match_lots, lots_of,
}
use carcharoth.Metrics.Matching.Loop.{IsSubtraction, IsUsable, IsSettled, match_lots-Ends}

module _ {F : Type 0} ⦃num : Float F⦄ (laws : IsSubtraction F) where
  -- the lots of a symbol: at most one of the two sides has any
  abbrev OneSided : List (OpenLot F) → List (OpenLot F) → Type 0
  OneSided xs ys = All IsUsable xs × All IsUsable ys × ((xs ≡ []) ⊎ (ys ≡ []))

  abbrev IsMatched : Queues F → Type 0
  IsMatched q = (symbol : String) → OneSided (lots_of q.longs symbol) (lots_of q.shorts symbol)

  match_lots-empty :
      (trade : TradeRecord F) (decision : Option (DecisionRecord F)) (fuel : ℕ) (remaining : F)
      (m : Matched F)
      → match_lots fuel trade decision remaining [] ≡ some m
      → m.closing ≡ []
  unfolding match_lots
  match_lots-empty trade decision zero remaining m e = cc
  match_lots-empty trade decision (suc fuel) remaining m e = ground arith

  All-snoc :
      (xs : List (OpenLot F)) (x : OpenLot F)
      → All IsUsable xs
      → IsUsable x
      → All IsUsable (xs ++ (x ∷ []))
  All-snoc [] x all one = (one, tt)
  All-snoc (y ∷ ys) x (this, others) one = (this, All-snoc ys x others one)

  open_rest-OneSided :
      (trade : TradeRecord F) (decision : Option (DecisionRecord F))
      (closing opening : List (OpenLot F)) (m : Matched F)
      → OneSided closing opening
      → (closing ≡ [] → m.closing ≡ [])
      → IsSettled m
      → OneSided m.closing (open_rest trade decision m.remaining opening)
  unfolding open_rest
  open_rest-OneSided trade decision closing opening m (uc, uo, one) stays settled =
      elim (Bool-cases (nought ≺ m.remaining)) [
        | inl more ↦ rw more (
          settled.usable,
          All-snoc opening _ uo (λ r below. laws.sub-used m.remaining r more below),
          inl (settled.emptied more),
        )
        | inr over ↦ rw over (
          settled.usable,
          uo,
          elim one [
            | inl none_closing ↦ inl (stays none_closing)
            | inr none_opening ↦ inr none_opening
          ],
        )
      ]

  OneSided-swap : (xs ys : List (OpenLot F)) → OneSided xs ys → OneSided ys xs
  OneSided-swap xs ys (ux, uy, one) = (uy, ux, elim one [ inl a ↦ inr a | inr b ↦ inl b ])

  OneSided-side :
      (side : Side) (q : Queues F) (symbol : String)
      → IsMatched q
      → OneSided (closing_on side q symbol) (opening_on side q symbol)
  OneSided-side Side.buy q symbol all = OneSided-swap _ _ (all symbol)
  OneSided-side Side.sell q symbol all = all symbol

  put-OneSided :
      (q : Queues F) (symbol : String) (longs shorts : List (OpenLot F))
      → IsMatched q
      → OneSided longs shorts
      → IsMatched (record { longs = put q.longs symbol longs; shorts = put q.shorts symbol shorts })
  put-OneSided q symbol longs shorts all one s = elim (Bool-cases (symbol == s)) [
    | inl same ↦ rw (get-put q.longs symbol s longs, get-put q.shorts symbol s shorts, same) one
    | inr other ↦
        rw (get-put q.longs symbol s longs, get-put q.shorts symbol s shorts, other) (all s)
  ]

  store_lots-OneSided :
      (side : Side) (q : Queues F) (symbol : String) (closing opening : List (OpenLot F))
      → IsMatched q
      → OneSided closing opening
      → IsMatched (store_lots side q symbol closing opening)
  unfolding store_lots
  store_lots-OneSided Side.buy q symbol closing opening all one =
      put-OneSided q symbol opening closing all (OneSided-swap closing opening one)
  store_lots-OneSided Side.sell q symbol closing opening all one =
      put-OneSided q symbol closing opening all one

  no_lots-IsMatched : IsMatched no_lots
  unfolding get
  no_lots-IsMatched symbol = (tt, tt, inl refl)

  match_trade-IsMatched :
      (decisions : List (DecisionRecord F)) (trade : TradeRecord F) (q : Queues F)
      → IsMatched q
      → (q' : Queues F) × (trips : List (RoundTrip F)) × (match_trade decisions trade q
          ≡ some (q', trips))
        × IsMatched q'
  unfolding match_trade settle_match
  match_trade-IsMatched decisions trade q all =
      let decision =
        decision_before (decisions_for decisions trade.symbol trade.side) trade.timestamp in
      let closing = closing_on trade.side q trade.symbol in
      let opening = opening_on trade.side q trade.symbol in
      let one = OneSided-side trade.side q trade.symbol all in
      let (m, e, settled) =
        match_lots-Ends laws trade decision (length closing + 2) trade.qty closing (omega arith)
          one.0 in
      let kept : closing ≡ [] → m.closing ≡ [] = λ none_closing.
        match_lots-empty trade decision (length closing + 2) trade.qty m (
          subst (λ c. match_lots (length closing + 2) trade decision trade.qty c ≡ some m)
            none_closing e) in
      (
        settle_match trade decision q m,
        m.trips,
        ap (settle_option trade decision q) e,
        store_lots-OneSided trade.side q trade.symbol m.closing _ all
            (open_rest-OneSided trade decision closing opening m one kept settled),
      )

  match_trades-IsMatched :
      (decisions : List (DecisionRecord F)) (trades : List (TradeRecord F)) (q : Queues F)
      → IsMatched q
      → (q' : Queues F) × (trips : List (RoundTrip F)) × (match_trades decisions trades q
          ≡ some (q', trips))
        × IsMatched q'
  unfolding match_trades
  match_trades-IsMatched decisions [] q all = (q, [], refl, all)
  match_trades-IsMatched decisions (trade ∷ trades) q all =
      let (q1, trips, e, all1) = match_trade-IsMatched decisions trade q all in
      let (q2, more, e2, all2) = match_trades-IsMatched decisions trades q1 all1 in
      (
        q2,
        trips ++ more,
        ap (λ o. and_then o (match_trades decisions trades)) e ∙ ap (add_trips trips) e2,
        all2,
      )

  -- Matching the trades of a run ends, on any trades and decisions, and no symbol is left with open
  -- lots on both sides: a trade opens lots only after it has closed all of the other side.
  pub match_round_trips_one_sided :
      (trades : List (TradeRecord F)) (decisions : List (DecisionRecord F))
      → (q : Queues F) × (trips : List (RoundTrip F)) × (match_round_trips trades decisions
          ≡ some (q, trips))
        × ((symbol : String) → (lots_of q.longs symbol ≡ []) ⊎ (lots_of q.shorts symbol ≡ []))
  unfolding match_round_trips
  match_round_trips_one_sided trades decisions =
      let (q, trips, e, all) =
        match_trades-IsMatched decisions (sort_by earlier_trade trades) no_lots no_lots-IsMatched in
      (q, trips, e, λ symbol. (all symbol).2)
