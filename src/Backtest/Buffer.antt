-- ===== src/Backtest/Buffer.antt =====
-- persistence/buffered.py: `WriteBuffer`, `sqlalchemy_flush` and the repositories of the snapshots.
pub mod Appended
pub mod Order
use carcharoth.Base.{
  ℕ, zero, suc, ◌+◌, String, List, [], ◌∷◌, ◌++◌, Bool, true, false, Option, none, some, leb,
  length, or_else, map, if◌then◌else◌,
}
use carcharoth.Base.Eq.{◌==◌, nat_eq, string_eq}
use carcharoth.Base.Dict.{Dict, get, put, values}
use carcharoth.Base.Result.{Error, Result, ok, err}
use carcharoth.Domain.{Time, Position, AccountState}

-- the tables by their names, with their rows in the order of insertion
abbrev pub Rows : Type 0 → Type 0
Rows R = Dict String (List R)

-- The attributes of `WriteBuffer`, with the tables that `flush_fn` inserts into.
pub record WriteBuffer (R : Type 0) : Type 0 where
  pub max_rows : ℕ
  pub pending : Rows R
  pub count : ℕ
  pub stored : Rows R

-- what a method leaves, and whether it raised
abbrev pub WriteResult : Type 0 → Type 0
WriteResult R = Result (Unit {0}) × WriteBuffer R

module _ {R : Type 0} where
  abbrev pub rows_of : Rows R → String → List R
  rows_of tables table = or_else (get tables table) []

  -- `setdefault(row_class, []).append(row)`, for some rows
  unfoldable pub append_rows : Rows R → String → List R → Rows R
  append_rows tables table rows = put tables table (rows_of tables table ++ rows)

  -- `__init__`
  unfoldable pub empty_buffer : ℕ → Rows R → WriteBuffer R
  empty_buffer max_rows stored = record {
    max_rows = max_rows;
    pending = [];
    count = 0;
    stored = stored;
  }

  -- the transaction of `sqlalchemy_flush`
  unfoldable pub insert_all : Rows R → Rows R → Rows R
  unfolding append_rows
  insert_all [] stored = stored
  insert_all ((table, rows) ∷ pending) stored = insert_all pending (append_rows stored table rows)

  -- the statements that follow, unless there was a raise
  abbrev pub and_then : WriteResult R → (WriteBuffer R → WriteResult R) → WriteResult R
  and_then (err e, b) next = (err e, b)
  and_then (ok _, b) next = next b

  -- The end of `flush`, given the error of the transaction if it raises one: it is then rolled back,
  -- and the rows are no longer pending all the same.
  unfoldable pub commit : Option Error → WriteBuffer R → WriteResult R
  unfolding insert_all
  commit (some e) b = (err e, record b { pending = []; count = 0 })
  commit none b =
      (ok tt, record b { pending = []; count = 0; stored = insert_all b.pending b.stored })

-- `refuses` is the database: the error with which it meets a transaction that inserts the first rows
-- into the second, if it does.
module _ {R : Type 0} (refuses : Rows R → Rows R → Option Error) where
  unfoldable pub flush : WriteBuffer R → WriteResult R
  unfolding commit
  flush b = if b.count == 0 then (ok tt, b) else commit (refuses b.pending b.stored) b

  unfoldable pub add : String → R → WriteBuffer R → WriteResult R
  unfolding append_rows flush
  add table row b =
      let added = record b {
        pending = append_rows b.pending table (row ∷ []);
        count = b.count + 1;
      } in
      if leb b.max_rows (b.count + 1) then flush added else (ok tt, added)

  -- some calls of `add`, up to one that raises
  unfoldable pub add_all : List (String × R) → WriteBuffer R → WriteResult R
  unfolding add
  add_all [] b = (ok tt, b)
  add_all ((table, row) ∷ rows) b = and_then (add table row b) (add_all rows)

-- the rows of the snapshots, whose columns hold decimals that print as the floats
pub data SnapshotRow (F : Type 0) : Type 0 where
  position_row :
      (run_id : String) (timestamp : Time) (symbol : String)
      (qty avg_price market_value unrealized_pnl : F)
      → SnapshotRow F
  equity_row : (run_id : String) (timestamp : Time) (equity cash buying_power : F) → SnapshotRow F

module _ {F : Type 0} where
  abbrev pub position_entry : String → Time → Position F → String × SnapshotRow F
  position_entry run_id timestamp position = (
    "positions_snapshot",
    SnapshotRow.position_row run_id timestamp position.symbol position.qty position.avg_entry_price
        position.market_value position.unrealized_pnl,
  )

  abbrev pub equity_entry : String → Time → AccountState F → String × SnapshotRow F
  equity_entry run_id timestamp state = (
    "equity_snapshots",
    SnapshotRow.equity_row run_id timestamp state.equity state.cash state.buying_power,
  )

  module _ (refuses : Rows (SnapshotRow F) → Rows (SnapshotRow F) → Option Error) where
    -- `BufferedPositionSnapshotRepository.save_snapshot`
    unfoldable pub save_positions :
        String → Time → AccountState F → WriteBuffer (SnapshotRow F) → WriteResult (SnapshotRow F)
    unfolding add_all
    save_positions run_id timestamp state = add_all refuses (
        map (position_entry run_id timestamp) (values state.positions)
        ++ (equity_entry run_id timestamp state ∷ []))

    -- `BufferedEquityOnlyRepository.save_snapshot`
    unfoldable pub save_equity :
        String → Time → AccountState F → WriteBuffer (SnapshotRow F) → WriteResult (SnapshotRow F)
    unfolding add_all
    save_equity run_id timestamp state = add_all refuses (equity_entry run_id timestamp state ∷ [])
