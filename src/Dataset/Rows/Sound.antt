-- ===== src/Dataset/Rows/Sound.antt =====
-- modeling/dataset.py: where the rows and labels of `dataset_from_prepared` come from.
use carcharoth.Base.{
  ℕ, suc, ◌+◌, ◌*◌, ◌<◌, String, List, [], ◌∷◌, true, Option, none, some, length, drop, get_elem?,
  All, All-append, drop-cons, arith, ◌≡◌, ◌∙◌, refl, sym, ap, inl, inr, Bool-cases, subst,
}
use carcharoth.Base.Eq.{◌==◌, nat_eq, eq_of_beq}
use carcharoth.Base.Float.{Float}
use carcharoth.Base.Result.{Result, ok, >>=-eq-ok}
use carcharoth.Domain.{Time, Bar}
use carcharoth.Session.{MarketZone, is_regular_session}
use carcharoth.Dataset.Clean.{Reals, PreparedSymbol}
use carcharoth.Dataset.Evidence.{WindowEvidence, is_within}
use carcharoth.Dataset.Gaps.{gap_sums, sum_at, is_contiguous, gap_sums-eq-contiguous}
use carcharoth.Dataset.Rows.{
  Record, Window, reject_reason, stands_at, label_of, forward_return, Verdict, label_row, judge_by,
  judge, Tally, tally, judge_bars, symbol_rows,
}

-- the bar of a row, the bar that is entered and the bar that is left, and what ties the row to them
pub record IsLabelled {F : Type 0} ⦃num : Float F⦄ ⦃zone : MarketZone⦄ (reals : Reals F)
    (w : Window F) (item : PreparedSymbol F) (symbol : String) (index : ℕ) (r : Record F)
    : Type 0 where
  pub bar : Bar F
  pub entry : Bar F
  pub exit_bar : Bar F
  pub bar_at : get_elem? item.bars index ≡ some bar
  pub entry_at : get_elem? item.bars (index + 1) ≡ some entry
  pub exit_at : get_elem? item.bars (index + w.horizon) ≡ some exit_bar
  pub row_at : get_elem? item.matrix index ≡ some r.row
  pub same_symbol : r.symbol ≡ symbol
  pub same_time : r.timestamp ≡ bar.timestamp
  pub starts_inside : is_within w.start w.end_exclusive r.timestamp ≡ true
  pub exit_time : exit_bar.timestamp ≡ r.timestamp + w.horizon * w.step
  pub ends_inside : exit_bar.timestamp < w.end_exclusive
  pub same_day : zone.local_date exit_bar.timestamp ≡ zone.local_date r.timestamp
  pub in_session : is_regular_session exit_bar.timestamp ≡ true
  pub contiguous : is_contiguous w.step w.horizon (drop index item.bars) ≡ true
  pub labelled : r.label ≡ label_of w.target (forward_return reals entry exit_bar)

-- the facts of `reject_reason` that say there is none
pub record IsKept {F : Type 0} ⦃zone : MarketZone⦄ (w : Window F) (item : PreparedSymbol F)
    (index : ℕ) (bar : Bar F) : Type 0 where
  pub before_end : bar.timestamp + w.horizon * w.step < w.end_exclusive
  pub day : zone.local_date (bar.timestamp + w.horizon * w.step) ≡ zone.local_date bar.timestamp
  pub regular : is_regular_session (bar.timestamp + w.horizon * w.step) ≡ true
  pub in_range : index + w.horizon < length item.bars
  pub sums :
      (sum_at (gap_sums w.step 0 item.bars) (index + w.horizon)
        == sum_at (gap_sums w.step 0 item.bars) index)
      ≡ true
  pub stands :
      stands_at (get_elem? item.bars (index + w.horizon)) (bar.timestamp + w.horizon * w.step)
      ≡ true

module _ {F : Type 0} ⦃num : Float F⦄ ⦃zone : MarketZone⦄ (reals : Reals F) (w : Window F)
    (item : PreparedSymbol F) where
  reject_reason-IsKept :
      (index : ℕ) (bar : Bar F)
      → reject_reason reals w item (gap_sums w.step 0 item.bars) index bar ≡ none
      → IsKept w item index bar
  unfolding reject_reason
  reject_reason-IsKept index bar h = record {
    before_end = ground arith;
    day = eq_of_beq _ _ (ground arith);
    regular = ground arith;
    in_range = ground arith;
    sums = ground arith;
    stands = ground arith;
  }

  -- what `label_row` has read, where it gives a row
  record IsRead (symbol : String) (bar : Bar F) (entry : Option (Bar F)) (exit_bar : Option (Bar F))
      (row : Option (List F)) (r : Record F) : Type 0 where
    entered : Bar F
    left : Bar F
    entry_is : entry ≡ some entered
    exit_is : exit_bar ≡ some left
    row_is : row ≡ some r.row
    symbol_is : r.symbol ≡ symbol
    time_is : r.timestamp ≡ bar.timestamp
    label_is : r.label ≡ label_of w.target (forward_return reals entered left)

  label_row-IsRead :
      (symbol : String) (bar : Bar F) (entry exit_bar : Option (Bar F)) (row : Option (List F))
      {r : Record F}
      → label_row reals w symbol bar entry exit_bar row ≡ ok (Verdict.record_of r)
      → IsRead symbol bar entry exit_bar row r
  unfolding label_row
  label_row-IsRead symbol bar none exit_bar row h = cc
  label_row-IsRead symbol bar (some entry) none row h = cc
  label_row-IsRead symbol bar (some entry) (some left) none h = cc
  label_row-IsRead symbol bar (some entry) (some left) (some row) {r} h =
      elim (Bool-cases (reals.is_finite (forward_return reals entry left))) [
        | inr other ↦ ground (arith, other)
        | inl finite ↦
            let same : ok (
                  Verdict.record_of (record {
                    timestamp = bar.timestamp;
                    symbol = symbol;
                    row = row;
                    label = label_of w.target (forward_return reals entry left);
                  }))
                ≡ ok (Verdict.record_of r) =
              ground (arith, finite) in
            record {
              entered = entry;
              left = left;
              entry_is = refl;
              exit_is = refl;
              row_is = cc same;
              symbol_is = cc same;
              time_is = cc same;
              label_is = cc same;
            }
      ]

  judge_by-eq-record :
      (o : Option String) (labelled : Result (Verdict F)) {r : Record F}
      → judge_by o labelled ≡ ok (Verdict.record_of r)
      → (o ≡ none) × (labelled ≡ ok (Verdict.record_of r))
  judge_by-eq-record none labelled h = (refl, h)
  judge_by-eq-record (some reason) labelled h = cc

  stands_at-eq :
      (o : Option (Bar F)) (t : Time) {bar : Bar F}
      → o ≡ some bar
      → stands_at o t ≡ true
      → bar.timestamp ≡ t
  stands_at-eq none t found h = cc
  stands_at-eq (some other) t {bar} found h = eq_of_beq _ _ (ground (arith, found))

  judge-record_lem :
      (symbol : String) (index : ℕ) (bar : Bar F) {r : Record F}
      → judge reals w item (gap_sums w.step 0 item.bars) symbol index bar ≡ ok (Verdict.record_of r)
      → (is_within w.start w.end_exclusive bar.timestamp ≡ true)
        × (reject_reason reals w item (gap_sums w.step 0 item.bars) index bar ≡ none)
        × (label_row reals w symbol bar
              (get_elem? item.bars (index + 1))
              (get_elem? item.bars (index + w.horizon))
              (get_elem? item.matrix index)
            ≡ ok (Verdict.record_of r))
  unfolding judge
  judge-record_lem symbol index bar h =
      elim (Bool-cases (is_within w.start w.end_exclusive bar.timestamp)) [
        | inr out ↦ ground (arith, out)
        | inl inside ↦
            let (no_reason, gives) = judge_by-eq-record _ _ (ground (arith, inside)) in
            (inside, no_reason, gives)
      ]

  -- a bar that gives a row
  judge-IsLabelled :
      (symbol : String) (index : ℕ) (bar : Bar F) {r : Record F}
      → get_elem? item.bars index ≡ some bar
      → judge reals w item (gap_sums w.step 0 item.bars) symbol index bar ≡ ok (Verdict.record_of r)
      → IsLabelled reals w item symbol index r
  judge-IsLabelled symbol index bar {r} at h =
      let (inside, no_reason, gives) = judge-record_lem symbol index bar h in
      let kept = reject_reason-IsKept index bar no_reason in
      let read = label_row-IsRead symbol bar _ _ _ gives in
      let leaves : read.left.timestamp ≡ bar.timestamp + w.horizon * w.step =
        stands_at-eq _ _ read.exit_is kept.stands in
      record {
        bar = bar;
        entry = read.entered;
        exit_bar = read.left;
        bar_at = at;
        entry_at = read.entry_is;
        exit_at = read.exit_is;
        row_at = read.row_is;
        same_symbol = read.symbol_is;
        same_time = read.time_is;
        starts_inside = ground (arith, inside, read.time_is);
        exit_time = omega (arith, leaves, read.time_is);
        ends_inside = rw leaves kept.before_end;
        same_day = ap zone.local_date leaves ∙ (kept.day ∙ sym (ap zone.local_date read.time_is));
        in_session = rw leaves kept.regular;
        contiguous =
            sym (gap_sums-eq-contiguous w.step index w.horizon item.bars kept.in_range) ∙ kept.sums;
        labelled = read.label_is;
      }

  -- the rows of a tally each stand at a position of the bars
  abbrev pub IsSound : String → Record F → Type 0
  IsSound symbol r = (index : ℕ) × IsLabelled reals w item symbol index r

  tally-IsSound :
      (symbol : String) (verdict : Verdict F) (t : Tally F)
      → ((r : Record F) → verdict ≡ Verdict.record_of r → IsSound symbol r)
      → All (IsSound symbol) t.records
      → All (IsSound symbol) (tally verdict t).records
  unfolding tally
  tally-IsSound symbol (Verdict.record_of r) t gives h =
      All-append (IsSound symbol) t.records (r ∷ []) h (gives r refl, tt)
  tally-IsSound symbol (Verdict.rejected reason) t gives h = h
  tally-IsSound symbol Verdict.outside t gives h = h

  judge_bars-IsSound :
      (symbol : String) (index : ℕ) (bars : List (Bar F)) (t : Tally F) {last : Tally F}
      → drop index item.bars ≡ bars
      → All (IsSound symbol) t.records
      → judge_bars reals w item (gap_sums w.step 0 item.bars) symbol index bars t ≡ ok last
      → All (IsSound symbol) last.records
  unfolding judge_bars
  judge_bars-IsSound symbol index [] t {last} e h ends =
      let same : t ≡ last = cc ends in subst (λ v. All (IsSound symbol) v.records) same h
  judge_bars-IsSound symbol index (bar ∷ bars) t e h ends =
      let (verdict, judged, rest) =
        >>=-eq-ok (judge reals w item (gap_sums w.step 0 item.bars) symbol index bar) _ ends in
      let (at, left) = drop-cons index item.bars e in
      let gives : (r : Record F) → verdict ≡ Verdict.record_of r → IsSound symbol r =
        λ r same. (index, judge-IsLabelled symbol index bar at (judged ∙ ap ok same)) in
      judge_bars-IsSound symbol (suc index) bars (tally verdict t) left
        (tally-IsSound symbol verdict t gives h) rest

  -- Every row that one symbol gives stands at a position of its bars, inside the window; the bar
  -- that is left is `horizon` bars and `horizon` steps later, strictly before the end of the window,
  -- on the same day and in the session, with no gap on the way; the label is that of the return from
  -- the open of the next bar to its close, and the row of features is that of the position.
  pub symbol_rows-IsSound :
      (symbol : String) {records : List (Record F)} {stats : WindowEvidence}
      → symbol_rows reals w item symbol ≡ ok (records, stats)
      → All (IsSound symbol) records
  unfolding symbol_rows
  symbol_rows-IsSound symbol {records} h =
      let (last, judged, rest) =
        >>=-eq-ok
          (judge_bars reals w item (gap_sums w.step 0 item.bars) symbol 0 item.bars
            (record { records = []; rejects = [] }))
          _ h in
      let same : last.records ≡ records = cc rest in
      subst (λ v. All (IsSound symbol) v) same
        (judge_bars-IsSound symbol 0 item.bars _ refl tt judged)
