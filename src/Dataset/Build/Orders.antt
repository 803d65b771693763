-- ===== src/Dataset/Build/Orders.antt =====
-- modeling/dataset.py: the rows of `ModelDataset` and their order.
use carcharoth.Base.{
  ℕ, ◌≤◌, String, List, [], ◌∷◌, ◌++◌, Option, none, some, map, All, All-map, All-append, arith,
  ◌≡◌, refl, sym, subst,
}
use carcharoth.Base.Eq.{nat_eq, string_eq}
use carcharoth.Base.Float.{Float}
use carcharoth.Base.Dict.{Dict, get, put}
use carcharoth.Base.Result.{ok, >>=-eq-ok, ok-inj}
use carcharoth.Base.Sort.{sort_by}
use carcharoth.Base.Sort.Sorted.{IsSorted, Decides, All-sort_by, sort_by-IsSorted}
use carcharoth.Session.{MarketZone}
use carcharoth.Dataset.Clean.{Reals, PreparedSymbol}
use carcharoth.Dataset.Evidence.{WindowEvidence}
use carcharoth.Dataset.Rows.{Record, Window, symbol_rows}
use carcharoth.Dataset.Rows.Sound.{IsLabelled, symbol_rows-IsSound}
use carcharoth.Dataset.Build.{
  ModelDataset, Pipeline, record_le, row_of, key_of, target_window, collect, dataset_from_prepared,
}

module _ {F : Type 0} where
  -- not later
  abbrev IsNotLater : Record F → Record F → Type 0
  IsNotLater a b = a.timestamp ≤ b.timestamp

  record_le-Decides : Decides record_le IsNotLater
  unfolding record_le
  record_le-Decides = record {
    first = λ a b h. ground (arith, h);
    second = λ a b h. ground (arith, h);
    trans = λ a b c h k. omega (arith, h, k);
  }

module _ {F : Type 0} ⦃num : Float F⦄ ⦃zone : MarketZone⦄ (reals : Reals F) (w : Window F)
    (prepared : Dict String (PreparedSymbol F)) where
  -- the row belongs to a position of the bars of its own symbol
  abbrev IsFound : Record F → Type 0
  IsFound r =
      (item : PreparedSymbol F) × (get prepared r.symbol ≡ some item)
      × ((index : ℕ) × IsLabelled reals w item r.symbol index r)

  key_of-eq-ok {ℓ} : {A : Type ℓ} (o : Option A) {a : A} → key_of o ≡ ok a → o ≡ some a
  key_of-eq-ok none h = cc
  key_of-eq-ok (some b) h = cc

  IsLabelled-IsFound :
      (item : PreparedSymbol F) (symbol : String)
      → get prepared symbol ≡ some item
      → (r : Record F) → ((index : ℕ) × IsLabelled reals w item symbol index r)
      → IsFound r
  IsLabelled-IsFound item symbol found r (index, row) =
      subst
        (λ s.
          (item : PreparedSymbol F) × (get prepared s ≡ some item)
          × ((index : ℕ) × IsLabelled reals w item s index r))
        (sym row.same_symbol) (item, found, (index, row))

  collect-IsFound :
      (symbols : List String) (records : List (Record F)) (evidence : Dict String WindowEvidence)
      {out : List (Record F) × Dict String WindowEvidence}
      → All IsFound records
      → collect reals w prepared symbols records evidence ≡ ok out
      → All IsFound out.0
  unfolding collect
  collect-IsFound [] records evidence h ends = subst (λ o. All IsFound o.0) (ok-inj ends) h
  collect-IsFound (symbol ∷ symbols) records evidence h ends =
      let (item, found, next) = >>=-eq-ok (key_of (get prepared symbol)) _ ends in
      let (out, rows, rest) = >>=-eq-ok (symbol_rows reals w item symbol) _ next in
      collect-IsFound symbols (records ++ out.0) (put evidence symbol out.1)
        (All-append IsFound records out.0 h (
          All-map (IsLabelled-IsFound item symbol (key_of-eq-ok _ found)) out.0
            (symbol_rows-IsSound reals w item symbol rows)))
        rest

-- the rows of a dataset: what they are made of, their order, and where they come from
pub record IsBuilt {F : Type 0} ⦃num : Float F⦄ ⦃zone : MarketZone⦄ (reals : Reals F) (w : Window F)
    (prepared : Dict String (PreparedSymbol F)) (d : ModelDataset F) : Type 0 where
  pub records : List (Record F)
  pub features_are : d.features ≡ map (λ (r : Record F). r.row) records
  pub labels_are : d.labels ≡ map (λ (r : Record F). r.label) records
  pub rows_are : d.rows ≡ map row_of records
  pub ordered : IsSorted IsNotLater records
  pub found : All (IsFound reals (target_window w) prepared) records

module _ {F : Type 0} ⦃num : Float F⦄ ⦃zone : MarketZone⦄ (reals : Reals F) (w : Window F)
    (prepared : Dict String (PreparedSymbol F)) where
  -- The rows of a dataset are in the order of time, and each is one that its symbol gives: it
  -- stands at a position of the bars of the symbol inside the window, and its label is that of the
  -- return up to the bar `horizon` steps later, which lies before the end of the window, on the
  -- same day, in the session and with no gap on the way.
  pub dataset_from_prepared-IsBuilt :
      (symbols : List String) (pipeline : Pipeline F) {d : ModelDataset F}
      → dataset_from_prepared reals prepared symbols pipeline w ≡ ok d
      → IsBuilt reals w prepared d
  unfolding dataset_from_prepared
  dataset_from_prepared-IsBuilt symbols pipeline {d} h =
      let (out, gives, rest) =
        >>=-eq-ok (collect reals (target_window w) prepared symbols [] []) _ h in
      subst (IsBuilt reals w prepared) (ok-inj rest) (record {
        records = sort_by record_le out.0;
        features_are = refl;
        labels_are = refl;
        rows_are = refl;
        ordered = sort_by-IsSorted record_le-Decides out.0;
        found =
            All-sort_by (IsFound reals (target_window w) prepared) record_le out.0
              (collect-IsFound reals (target_window w) prepared symbols [] [] tt gives);
      })
