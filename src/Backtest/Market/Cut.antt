-- ===== src/Backtest/Market/Cut.antt =====
-- services/backtest/market_data.py: the bars that a snapshot is made of.
use carcharoth.Base.{
  suc, ◌≤◌, String, List, [], ◌∷◌, false, Option, none, some, leb, length, take, drop, last?, keep,
  map, or_else, All, arith, ◌≡◌, refl, sym, ◌∙◌, ap, inl, inr, Bool-cases, if◌then◌else◌,
}
use carcharoth.Base.Eq.{◌==◌, string_eq, eq_of_beq, beq_of_eq}
use carcharoth.Base.Int.{ℤ, pos, pos_part, ◌-ℤ◌}
use carcharoth.Base.Float.{Float}
use carcharoth.Base.Dict.{Dict, get, put, get-put}
use carcharoth.Base.Result.{ok}
use carcharoth.Base.Sort.{elem}
use carcharoth.Base.Sort.Sorted.{IsSorted, Decides, sort_by-IsSorted}
use carcharoth.Domain.{Time, Bar, BarSpec, Quote, MarketSnapshot}
use carcharoth.Session.{MarketZone, is_regular_session}
use carcharoth.Dataset.Clean.{bar_le}
use carcharoth.Backtest.Market.{
  History, bisect_right, times_of, ordered_bars, init, bars_of, require_cursor, window_of,
  synthetic_quote, put_quote, fill_snapshot, get_snapshot,
}

module _ {F : Type 0} where
  -- the bars up to a time, by looking at each
  abbrev pub past : Time → List (Bar F) → List (Bar F)
  past t bars = keep (λ (bar : Bar F). leb bar.timestamp t) bars

  -- the last `lookback` of them
  unfoldable pub recent : Time → ℤ → List (Bar F) → List (Bar F)
  unfolding keep ◌-ℤ◌
  recent t lookback bars = drop (pos_part (pos (length (past t bars)) -ℤ lookback)) (past t bars)

  abbrev pub IsEarlier : Bar F → Bar F → Type 0
  IsEarlier a b = a.timestamp ≤ b.timestamp

  -- the lists of a history are in the order of time
  abbrev pub IsOrdered : History F → Type 0
  IsOrdered h = (symbol : String) → IsSorted IsEarlier (bars_of h symbol)

  bar_le-Decides : Decides bar_le IsEarlier
  bar_le-Decides = record {
    first = λ a b h. ground (arith, h);
    second = λ a b h. ground (arith, h);
    trans = λ a b c h k. omega (arith, h, k);
  }

  past-nothing :
      (t : Time) (a : Bar F) (bars : List (Bar F))
      → leb a.timestamp t ≡ false
      → All (IsEarlier a) bars
      → past t bars ≡ []
  unfolding keep
  past-nothing t a [] h all = refl
  past-nothing t a (b ∷ bars) h all =
      let later : leb b.timestamp t ≡ false = ground (arith, h, all.0) in
      rw later (past-nothing t a bars h all.1)

  bisect_right-cut :
      (t : Time) (bars : List (Bar F))
      → IsSorted IsEarlier bars
      → (bisect_right (times_of bars) t ≡ length (past t bars))
        × (take (bisect_right (times_of bars) t) bars ≡ past t bars)
  unfolding bisect_right keep
  bisect_right-cut t [] h = (refl, refl)
  bisect_right-cut t (a ∷ bars) h = elim (Bool-cases (leb a.timestamp t)) [
    | inl seen ↦
        let (count, cut) = bisect_right-cut t bars h.1 in
        rw seen (ap suc count, ap (λ xs. a ∷ xs) cut)
    | inr later ↦ rw (later, past-nothing t a bars later h.0) (refl, refl)
  ]

  window_of-recent :
      (t : Time) (lookback : ℤ) (bars : List (Bar F))
      → IsSorted IsEarlier bars
      → window_of t lookback bars ≡ recent t lookback bars
  unfolding window_of recent
  window_of-recent t lookback bars h =
      let (count, cut) = bisect_right-cut t bars h in
      ap (λ xs. drop (pos_part (pos (bisect_right (times_of bars) t) -ℤ lookback)) xs) cut
      ∙ ap (λ n. drop (pos_part (pos n -ℤ lookback)) (past t bars)) count

  ordered_bars-IsSorted :
      ⦃zone : MarketZone⦄ (bars : List (Bar F)) → IsSorted IsEarlier (ordered_bars bars)
  unfolding ordered_bars
  ordered_bars-IsSorted bars =
      sort_by-IsSorted bar_le-Decides
        (keep (λ (bar : Bar F). is_regular_session bar.timestamp) bars)

  stored-IsSorted :
      ⦃zone : MarketZone⦄ (d : Dict String (List (Bar F))) (symbol : String)
      → IsSorted IsEarlier (
          or_else
            (get (map (λ (kv : String × List (Bar F)). (kv.0, ordered_bars kv.1)) d) symbol)
            [])
  unfolding get
  stored-IsSorted [] symbol = tt
  stored-IsSorted ((key, bars) ∷ d) symbol = elim (Bool-cases (key == symbol)) [
    | inl same ↦ rw same (ordered_bars-IsSorted bars)
    | inr other ↦ rw other (stored-IsSorted d symbol)
  ]

  -- a history that is set up is ordered
  pub init-IsOrdered :
      ⦃zone : MarketZone⦄ (bars : Dict String (List (Bar F))) (spread : F) (tradable : List String)
      → IsOrdered (init bars spread tradable)
  unfolding init
  init-IsOrdered bars spread tradable symbol = stored-IsSorted bars symbol

module _ {F : Type 0} ⦃num : Float F⦄ where
  fill_snapshot-time :
      (h : History F) (t : Time) (lookback : ℤ) (symbols : List String) (s : MarketSnapshot F)
      → (fill_snapshot h t lookback symbols s).as_of ≡ s.as_of
  unfolding fill_snapshot
  fill_snapshot-time h t lookback [] s = refl
  fill_snapshot-time h t lookback (symbol ∷ symbols) s = fill_snapshot-time h t lookback symbols _

  -- what the loop has for a symbol
  fill_snapshot-get :
      (h : History F) (t : Time) (lookback : ℤ) (symbols : List String) (s : MarketSnapshot F)
      (symbol : String)
      → get (fill_snapshot h t lookback symbols s).bars symbol ≡ (
          if elem symbol symbols
          then some (window_of t lookback (bars_of h symbol))
          else get s.bars symbol)
  unfolding fill_snapshot elem
  fill_snapshot-get h t lookback [] s symbol = refl
  fill_snapshot-get h t lookback (first ∷ rest) s symbol =
      let window = window_of t lookback (bars_of h first) in
      let later =
        fill_snapshot-get h t lookback rest
          (record s {
            bars = put s.bars first window;
            quotes = put_quote h first t (last? window) s.quotes;
          })
          symbol in
      elim (Bool-cases (first == symbol)) [
        | inl same ↦
            let e : first ≡ symbol = eq_of_beq first symbol same in
            ground (
              arith,
              later,
              get-put s.bars first symbol window,
              same,
              beq_of_eq symbol first (sym e),
              ap (λ x. window_of t lookback (bars_of h x)) e,
            )
        | inr other ↦ ground (
          arith,
          later,
          get-put s.bars first symbol window,
          other,
          eq_of_beq symbol first,
          beq_of_eq first symbol,
        )
      ]

  -- The bars of a snapshot: with a cursor in an ordered history there always is a snapshot, which
  -- has for every symbol that is asked for the last `lookback` of the bars that are not after the
  -- cursor, and nothing for any other symbol.
  pub get_snapshot-recent :
      (h : History F) (symbols : List String) (spec : BarSpec) (t : Time)
      → IsOrdered h
      → h.as_of ≡ some t
      → (s : MarketSnapshot F) × (get_snapshot symbols spec h ≡ ok s)
        × (s.as_of ≡ t)
        × ((symbol : String)
            → get s.bars symbol ≡ (
                if elem symbol symbols
                then some (recent t spec.lookback (bars_of h symbol))
                else none))
  unfolding get_snapshot require_cursor get
  get_snapshot-recent h symbols spec t ordered now =
      let start : MarketSnapshot F = record { bars = []; quotes = []; as_of = t } in
      let s = fill_snapshot h t spec.lookback symbols start in
      (
        s,
        rw now refl,
        fill_snapshot-time h t spec.lookback symbols start,
        λ symbol.
            fill_snapshot-get h t spec.lookback symbols start symbol
            ∙ ap (λ w. if elem symbol symbols then some w else none)
                (window_of-recent t spec.lookback (bars_of h symbol) (ordered symbol)),
      )

  put_quote-same :
      (h k : History F) (symbol : String) (t : Time) (bar : Option (Bar F))
      (quotes : Dict String (Quote F))
      → h.spread_pct ≡ k.spread_pct
      → put_quote h symbol t bar quotes ≡ put_quote k symbol t bar quotes
  unfolding synthetic_quote
  put_quote-same h k symbol t none quotes spread = refl
  put_quote-same h k symbol t (some bar) quotes spread = rw spread refl

  fill_snapshot-same :
      (h k : History F) (t : Time) (lookback : ℤ) (symbols : List String) (s : MarketSnapshot F)
      → h.spread_pct ≡ k.spread_pct
      → ((symbol : String)
          → window_of t lookback (bars_of h symbol) ≡ window_of t lookback (bars_of k symbol))
      → fill_snapshot h t lookback symbols s ≡ fill_snapshot k t lookback symbols s
  unfolding fill_snapshot
  fill_snapshot-same h k t lookback [] s spread windows = refl
  fill_snapshot-same h k t lookback (symbol ∷ symbols) s spread windows =
      ap
        (λ w. fill_snapshot h t lookback symbols (record s {
          bars = put s.bars symbol w;
          quotes = put_quote h symbol t (last? w) s.quotes;
        }))
        (windows symbol)
      ∙ (ap
            (λ q. fill_snapshot h t lookback symbols (record s {
              bars = put s.bars symbol (window_of t lookback (bars_of k symbol));
              quotes = q;
            }))
            (put_quote-same h k symbol t (last? (window_of t lookback (bars_of k symbol))) s.quotes
              spread)
          ∙ fill_snapshot-same h k t lookback symbols _ spread windows)

  -- A snapshot looks at no later bar: two ordered histories with the same spread and cursor, whose
  -- bars up to the cursor are the same for every symbol, give the same snapshot, quotes included,
  -- whatever their later bars are.
  pub get_snapshot_past :
      (h k : History F) (symbols : List String) (spec : BarSpec) (t : Time)
      → IsOrdered h
      → IsOrdered k
      → h.as_of ≡ some t
      → k.as_of ≡ some t
      → h.spread_pct ≡ k.spread_pct
      → ((symbol : String) → past t (bars_of h symbol) ≡ past t (bars_of k symbol))
      → get_snapshot symbols spec h ≡ get_snapshot symbols spec k
  unfolding get_snapshot require_cursor recent
  get_snapshot_past h k symbols spec t ordered_h ordered_k now_h now_k spread same =
      let windows = λ (symbol : String).
        window_of-recent t spec.lookback (bars_of h symbol) (ordered_h symbol)
        ∙ (ap (λ xs. drop (pos_part (pos (length xs) -ℤ spec.lookback)) xs) (same symbol)
            ∙ sym (window_of-recent t spec.lookback (bars_of k symbol) (ordered_k symbol))) in
      rw (now_h, now_k) (ap ok (fill_snapshot-same h k t spec.lookback symbols _ spread windows))
