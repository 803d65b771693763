-- ===== src/Dataset/Evidence.antt =====
-- modeling/dataset.py: `window_evidence`, with `WindowEvidence` of modeling/eligibility.py.
use carcharoth.Base.{
  ℕ, suc, ◌+◌, ◌*◌, String, List, [], ◌∷◌, Bool, false, Option, none, some, ◌&&◌, not, leb, ltb,
  length, last?, keep, map, or_else, if◌then◌else◌,
}
use carcharoth.Base.Eq.{◌==◌, nat_eq, string_eq}
use carcharoth.Base.Int.{pos}
use carcharoth.Base.Float.{Float, ◌⊘◌, nought}
use carcharoth.Base.Dict.{Dict, get, put, values}
use carcharoth.Base.Sort.{sort_by, dedupe, elem}
use carcharoth.Domain.{Time, Bar}
use carcharoth.Session.{MarketZone}
use carcharoth.Signal.{all_finite}
use carcharoth.Dataset.Clean.{Reals, PreparedSymbol}

-- `Counter`
abbrev pub Counter : Type 0
Counter = Dict String ℕ

unfoldable pub increment : Counter → String → Counter
increment c key = put c key (or_else (get c key) 0 + 1)

unfoldable pub count_all : List String → Counter → Counter
unfolding increment
count_all [] c = c
count_all (key ∷ ks) c = count_all ks (increment c key)

pub record WindowEvidence : Type 0 where
  pub start : Time
  pub end_exclusive : Time
  pub raw_bars : ℕ
  pub scheduled_bars : ℕ
  pub expected_rows : ℕ
  pub attempted_rows : ℕ
  pub feature_ready_rows : ℕ
  pub usable_rows : ℕ
  pub first_bar : Option Time
  pub last_bar : Option Time
  pub missing_sessions : ℕ
  pub longest_missing_session_run : ℕ
  pub rejections : Counter
  pub input_errors : Counter

module _ {F : Type 0} ⦃num : Float F⦄ where
  -- `a / b if b else 0.0`
  abbrev pub ratio : ℕ → ℕ → F
  ratio a b = if b == 0 then nought else num.of_int (pos a) ⊘ num.of_int (pos b)

  unfoldable pub usable_coverage : WindowEvidence → F
  usable_coverage e = ratio e.usable_rows e.expected_rows

  unfoldable pub raw_coverage : WindowEvidence → F
  raw_coverage e = ratio e.raw_bars e.scheduled_bars

-- `start <= ts < end_exclusive`
abbrev pub is_within : Time → Time → Time → Bool
is_within start end_exclusive ts = leb start ts && ltb ts end_exclusive

-- the value of a grid at a time is the date that is asked for
abbrev pub has_date : Option ℕ → ℕ → Bool
has_date none day = false
has_date (some d) day = d == day

abbrev pub first? {ℓ} : {A : Type ℓ} → List A → Option A
first? [] = none
first? (x ∷ xs) = some x

-- the loop over the days: the days without a bar, and the longest run of them
pub record Runs : Type 0 where
  pub longest : ℕ
  pub current : ℕ
  pub missing : ℕ

unfoldable pub missing_runs : List ℕ → List ℕ → Runs → Runs
missing_runs observed [] r = r
missing_runs observed (day ∷ days) r =
    let absent = not (elem day observed) in
    let current = if absent then r.current + 1 else 0 in
    missing_runs observed days (record {
      longest = if ltb r.longest current then current else r.longest;
      current = current;
      missing = r.missing + (if absent then 1 else 0);
    })

module _ {F : Type 0} where
  -- the rows of the matrix for the bars in the window; the two go side by side
  unfoldable pub ready_rows : Reals F → (Time → Bool) → List (Bar F) → List (List F) → ℕ
  unfolding all_finite
  ready_rows reals inside (bar ∷ bars) (row ∷ rows) =
      let rest = ready_rows reals inside bars rows in
      if inside bar.timestamp && all_finite reals.is_finite row then suc rest else rest
  ready_rows reals inside _ _ = 0

  -- the grid, where no calendar is given
  unfoldable pub observed_grid : ⦃zone : MarketZone⦄ → List (Bar F) → Dict Time ℕ → Dict Time ℕ
  observed_grid [] grid = grid
  observed_grid ⦃zone⦄ (bar ∷ bars) grid =
      observed_grid bars (put grid bar.timestamp (zone.local_date bar.timestamp))

  abbrev pub grid_or_observed :
      ⦃zone : MarketZone⦄ → Option (Dict Time ℕ) → List (Bar F) → Dict Time ℕ
  grid_or_observed none bars = observed_grid bars []
  grid_or_observed (some grid) bars = grid

  -- `window_evidence`, over a step in microseconds
  unfoldable pub window_evidence :
      ⦃zone : MarketZone⦄
      → Reals F
      → PreparedSymbol F
      → Time
      → Time
      → ℕ
      → ℕ
      → Option (Dict Time ℕ)
      → WindowEvidence
  unfolding missing_runs ready_rows observed_grid keep dedupe sort_by count_all
  window_evidence ⦃zone⦄ reals prepared start end_exclusive step horizon calendar =
      let grid = grid_or_observed calendar prepared.bars in
      let inside = is_within start end_exclusive in
      let scheduled = keep (λ (kv : Time × ℕ). inside kv.0) grid in
      let ends = λ (kv : Time × ℕ).
        ltb (kv.0 + horizon * step) end_exclusive
        && has_date (get grid (kv.0 + horizon * step)) kv.1 in
      let timestamps = keep inside (map (λ (bar : Bar F). bar.timestamp) prepared.bars) in
      let runs =
        missing_runs (map zone.local_date timestamps) (sort_by leb (dedupe (values scheduled)))
          (record { longest = 0; current = 0; missing = 0 }) in
      record {
        start = start;
        end_exclusive = end_exclusive;
        raw_bars = length timestamps;
        scheduled_bars = length scheduled;
        expected_rows = length (keep ends scheduled);
        attempted_rows = length timestamps;
        feature_ready_rows = ready_rows reals inside prepared.bars prepared.matrix;
        usable_rows = 0;
        first_bar = first? timestamps;
        last_bar = last? timestamps;
        missing_sessions = runs.missing;
        longest_missing_session_run = runs.longest;
        rejections = [];
        input_errors =
            count_all
              (map (λ (e : Time × String). e.1)
                (keep (λ (e : Time × String). ltb e.0 end_exclusive) prepared.errors))
              [];
      }
