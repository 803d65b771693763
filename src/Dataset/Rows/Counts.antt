-- ===== src/Dataset/Rows/Counts.antt =====
-- modeling/dataset.py: the counts of usable, attempted and rejected rows.
use carcharoth.Base.{
  ℕ, suc, ◌+◌, String, List, [], ◌∷◌, Option, none, some, length, get_elem?, keep, map,
  length-append, or_else, arith, ◌≡◌, subst, refl, inl, inr, Bool-cases, if◌then◌else◌,
}
use carcharoth.Base.Eq.{string_eq}
use carcharoth.Base.Dict.{get, put, values}
use carcharoth.Base.Float.{Float}
use carcharoth.Base.Result.{ok, >>=-eq-ok, ok-inj}
use carcharoth.Domain.{Bar}
use carcharoth.Session.{MarketZone}
use carcharoth.Dataset.Clean.{Reals, PreparedSymbol}
use carcharoth.Dataset.Evidence.{Counter, WindowEvidence, is_within, increment, window_evidence}
use carcharoth.Dataset.Gaps.{gap_sums}
use carcharoth.Dataset.Rows.{
  Record, Window, Verdict, reject_reason, label_row, judge_by, judge, Tally, tally, judge_bars,
  symbol_rows, total_of, forward_return,
}

total_of-put :
    (c : Counter) (key : String) (n : ℕ)
    → total_of (values (put c key n)) + or_else (get c key) 0 ≡ total_of (values c) + n
unfolding put get
total_of-put [] key n = omega arith
total_of-put ((k, m) ∷ c) key n = ground (arith, total_of-put c key n)

-- one more of a reason is one more of all
total_of-increment :
    (c : Counter) (key : String) → total_of (values (increment c key)) ≡ total_of (values c) + 1
unfolding increment
total_of-increment c key = omega (arith, total_of-put c key (or_else (get c key) 0 + 1))

module _ {F : Type 0} ⦃num : Float F⦄ ⦃zone : MarketZone⦄ (reals : Reals F) (w : Window F)
    (item : PreparedSymbol F) where
  -- the rows and the rejections of a tally
  abbrev size : Tally F → ℕ
  size t = length t.records + total_of (values t.rejects)

  -- whether a verdict counts
  abbrev weight : Verdict F → ℕ
  weight (Verdict.record_of r) = 1
  weight (Verdict.rejected reason) = 1
  weight Verdict.outside = 0

  size-tally :
      (verdict : Verdict F) (t : Tally F) → size (tally verdict t) ≡ size t + weight verdict
  unfolding tally
  size-tally (Verdict.record_of r) t = omega (arith, length-append t.records (r ∷ []))
  size-tally (Verdict.rejected reason) t = omega (arith, total_of-increment t.rejects reason)
  size-tally Verdict.outside t = omega arith

  weight-judge_by :
      (o : Option String) (symbol : String) (bar : Bar F) (entry exit_bar : Option (Bar F))
      (row : Option (List F)) {verdict : Verdict F}
      → judge_by o (label_row reals w symbol bar entry exit_bar row) ≡ ok verdict
      → weight verdict ≡ 1
  unfolding label_row
  weight-judge_by (some reason) symbol bar entry exit_bar row {verdict} h =
      let same : Verdict.rejected reason ≡ verdict = cc h in subst (λ v. weight v ≡ 1) same refl
  weight-judge_by none symbol bar none exit_bar row h = cc
  weight-judge_by none symbol bar (some entry) none row h = cc
  weight-judge_by none symbol bar (some entry) (some left) none h = cc
  weight-judge_by none symbol bar (some entry) (some left) (some row) h =
      elim (Bool-cases (reals.is_finite (forward_return reals entry left))) [
        | inl finite ↦ ground (arith, finite)
        | inr other ↦ ground (arith, other)
      ]

  judge-weight :
      (gaps : List ℕ) (symbol : String) (index : ℕ) (bar : Bar F) {verdict : Verdict F}
      → judge reals w item gaps symbol index bar ≡ ok verdict
      → weight verdict ≡ (if is_within w.start w.end_exclusive bar.timestamp then 1 else 0)
  unfolding judge
  judge-weight gaps symbol index bar {verdict} h =
      elim (Bool-cases (is_within w.start w.end_exclusive bar.timestamp)) [
        | inl inside ↦ rw inside (
            weight-judge_by (reject_reason reals w item gaps index bar) symbol bar
              (get_elem? item.bars (index + 1)) (get_elem? item.bars (index + w.horizon))
              (get_elem? item.matrix index) (ground (arith, inside)))
        | inr out ↦
            let same : ok Verdict.outside ≡ ok verdict = ground (arith, out) in
            rw out (subst (λ v. weight v ≡ 0) (ok-inj same) refl)
      ]

  judge_bars-size :
      (gaps : List ℕ) (symbol : String) (index : ℕ) (bars : List (Bar F)) (t : Tally F)
      {last : Tally F}
      → judge_bars reals w item gaps symbol index bars t ≡ ok last
      → size last
        ≡ size t
          + length
              (keep (is_within w.start w.end_exclusive) (map (λ (bar : Bar F). bar.timestamp) bars))
  unfolding judge_bars keep
  judge_bars-size gaps symbol index [] t {last} h =
      let same : t ≡ last = cc h in subst (λ v. size v ≡ size t + 0) same (omega arith)
  judge_bars-size gaps symbol index (bar ∷ bars) t h =
      let (verdict, judged, rest) = >>=-eq-ok (judge reals w item gaps symbol index bar) _ h in
      ground (
        arith,
        judge_bars-size gaps symbol (suc index) bars (tally verdict t) rest,
        size-tally verdict t,
        judge-weight gaps symbol index bar judged,
      )

  -- the counts that belong to a tally
  abbrev Counted : List (Record F) × WindowEvidence → Type 0
  Counted (records, stats) =
      (stats.usable_rows ≡ length records)
      × (stats.attempted_rows ≡ length records + total_of (values stats.rejections))

  -- Every bar of the window is counted once: the number of usable rows is the number of the rows
  -- that are given, and with the rejections it makes up the number of the attempted ones.
  pub symbol_rows-usable :
      (symbol : String) {records : List (Record F)} {stats : WindowEvidence}
      → symbol_rows reals w item symbol ≡ ok (records, stats)
      → (stats.usable_rows ≡ length records)
        × (stats.attempted_rows ≡ length records + total_of (values stats.rejections))
  unfolding symbol_rows window_evidence
  symbol_rows-usable symbol {records} {stats} h =
      let (last, judged, rest) =
        >>=-eq-ok
          (judge_bars reals w item (gap_sums w.step 0 item.bars) symbol 0 item.bars
            (record { records = []; rejects = [] }))
          _ h in
      let counted = judge_bars-size (gap_sums w.step 0 item.bars) symbol 0 item.bars _ judged in
      subst Counted (ok-inj rest) (omega (arith, counted), omega (arith, counted))
