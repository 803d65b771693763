-- ===== src/Tests/Desk.antt =====
-- The replayed market data and the end of a run on small inputs.
use carcharoth.Base.{
  List, Option, map, ◌⊎◌, ◌<◌, ℕ, String, [], ◌∷◌, ◌+◌, false, none, some, keep, subst, Bool-cases,
  ◌≡◌, refl, sym, ap, inl, inr, arith, if◌then◌else◌,
}
use carcharoth.Base.Eq.{◌==◌, string_eq}
use carcharoth.Base.Int.{ℤ, pos}
use carcharoth.Base.Dict.{put, get, get-cons_cases, get-cons_self, not-get-empty}
use carcharoth.Base.Float.Whole.{whole, whole-IsFloat}
use carcharoth.Base.Result.{Error, ok}
use carcharoth.Base.Sort.{elem}
use carcharoth.Domain.{BarSpec, MarketSnapshot, TimeframeUnit, OrderStatus, TargetExposure, Side}
use carcharoth.Engine.Effects.{World}
use carcharoth.Backtest.Market.{History, bars_of, get_snapshot, timestamp_grid}
use carcharoth.Backtest.Market.Cut.{recent, past, IsOrdered, get_snapshot-recent, get_snapshot_past}
use carcharoth.Backtest.Store.{OrderRow, Tables}
use carcharoth.Backtest.Runner.{Desk, Parts, finish, is_replayed, run}
use carcharoth.Backtest.Runner.Links.{IsLinked}
use carcharoth.Backtest.Runner.Finish.{IsFinished, finish_closes}
use carcharoth.Backtest.Runner.Sound.{IsSound, IsCalm}
use carcharoth.Backtest.Runner.Whole.{IsClosed, run_closes}
use carcharoth.Backtest.Buffer.{
  SnapshotRow, Rows, WriteBuffer, rows_of, append_rows, insert_all, commit, empty_buffer, flush,
  add, add_all, equity_entry,
}
use carcharoth.Backtest.Buffer.Appended.{size}
use carcharoth.Backtest.Buffer.Order.{write_all, flush-write_all, add_all-bounded}
use carcharoth.Tests.Setting.{utc, ten, bar, intent, account}
use carcharoth.Tests.Replay.{start, start-IsValid, bought, bought-IsValid, filled_a}

abbrev later : ℕ
later = ten + 300_000_000

abbrev spec : BarSpec
spec = record {
  timeframe = record { amount = pos 5; unit = TimeframeUnit.minute };
  lookback = pos 1;
}

-- two bars, of which the cursor shows the first; the second differs in the other history
abbrev history : ℕ → History ℤ
history price = record {
  bars = ("A", bar ten 10 ∷ bar later price ∷ []) ∷ [];
  spread_pct = pos 0;
  tradable_symbols = "A" ∷ [];
  as_of = some ten;
}

history-IsOrdered : (price : ℕ) → IsOrdered (history price)
unfolding get
history-IsOrdered price symbol = elim (Bool-cases ("A" == symbol)) [
  | inl same ↦ rw same ((omega arith, tt), (tt, tt))
  | inr other ↦ rw other tt
]

get_snapshot-recent_example :
    (s : MarketSnapshot ℤ) × (get_snapshot ("A" ∷ []) spec (history 11) ≡ ok s)
    × (s.as_of ≡ ten)
    × ((symbol : String)
        → get s.bars symbol ≡ (
            if elem symbol ("A" ∷ [])
            then some (recent ten (pos 1) (bars_of (history 11) symbol))
            else none))
get_snapshot-recent_example =
    get_snapshot-recent (history 11) ("A" ∷ []) spec ten (history-IsOrdered 11) refl

same_past :
    (symbol : String)
    → past ten (bars_of (history 11) symbol) ≡ past ten (bars_of (history 12) symbol)
unfolding get keep
same_past symbol = elim (Bool-cases ("A" == symbol)) [
  | inl same ↦ rw same refl
  | inr other ↦ rw other refl
]

get_snapshot_past_example :
    get_snapshot ("A" ∷ []) spec (history 11) ≡ get_snapshot ("A" ∷ []) spec (history 12)
get_snapshot_past_example =
    get_snapshot_past (history 11) (history 12) ("A" ∷ []) spec ten (history-IsOrdered 11)
      (history-IsOrdered 12) refl refl refl same_past

abbrev parts : Parts ℤ ℕ
parts = record {
  run_id = "run";
  requirements = record { bars = spec; context_symbols = [] };
  generate = λ symbol snapshot position n. (ok (intent TargetExposure.flat), n);
  assess = λ intent account quote.
      ok (record { intent = intent; approved = false; qty = pos 0; side = none; reason = "" });
  save_decision = λ intent decision time n. (ok tt, n);
  save_snapshot = λ time state n. (ok tt, n);
  fresh_id = λ n. ("id", n);
}

-- the order is filled, and the table has not heard of it
abbrev table_row : OrderRow ℤ
table_row = record {
  run_id = "run";
  broker_order_id = "1";
  client_order_id = none;
  symbol = "A";
  side = Side.buy;
  qty = pos 3;
  status = OrderStatus.accepted;
  created_at = ten;
  filled_at = none;
  filled_avg_price = none;
}

abbrev tables : Tables ℤ
tables = record { orders = ("1", table_row) ∷ []; trades = [] }

abbrev desk : World ℤ (Desk ℤ ℕ)
desk = record {
  outside = record { market = history 11; broker = bought; tables = tables; rest = 0 };
  calls = [];
}

tables-IsLinked : IsLinked "run" bought tables
tables-IsLinked = record {
  distinct = (unfold get in refl, tt);
  keyed = λ id o found. elim (get-cons_cases "1" id filled_a o [] found) [
    | inl (e, same) ↦ cc (e, ap (λ x. x.broker_order_id) (sym same))
    | inr (_, none_left) ↦ absurd (not-get-empty id none_left)
  ];
  known = λ id row found own. elim (get-cons_cases "1" id table_row row [] found) [
    | inl (e, _) ↦ (
      filled_a,
      subst (λ k. get (("1", filled_a) ∷ []) k ≡ some filled_a) e (get-cons_self "1" filled_a []),
    )
    | inr (_, none_left) ↦ absurd (not-get-empty id none_left)
  ];
  own = λ id trade o found there. absurd (not-get-empty id found);
}

finish_closes_example :
    (w' : World ℤ (Desk ℤ ℕ)) × (finish parts desk ≡ (ok tt, w'))
    × IsFinished parts desk.outside w'.outside
finish_closes_example = finish_closes parts desk bought-IsValid tables-IsLinked

-- before a run: nothing is ordered, and both bars are to be replayed
abbrev morning : World ℤ (Desk ℤ ℕ)
morning = record {
  outside = record {
    market = history 11;
    broker = start;
    tables = record { orders = []; trades = [] };
    rest = 0;
  };
  calls = [];
}

abbrev NoTrade : String → Type 0
NoTrade id = ⊥

parts-IsCalm : IsCalm parts NoTrade
parts-IsCalm = record { fresh = λ rest h. h; saves = λ t state rest. refl }

morning-IsSound : IsSound "run" NoTrade morning.outside
morning-IsSound = record {
  valid = start-IsValid;
  linked = record {
    distinct = tt;
    keyed = λ id o found. absurd (not-get-empty id found);
    known = λ id row found own. absurd (not-get-empty id found);
    own = λ id trade o found there. absurd (not-get-empty id found);
  };
  trades_own = λ id trade found. absurd (not-get-empty id found);
  orders_own = λ id o found h. h;
}

run_closes_example :
    (w' : World ℤ (Desk ℤ ℕ)) × (run parts ("A" ∷ []) ten later morning ≡ (ok tt, w'))
    × (((keep (is_replayed parts ("A" ∷ [])) (timestamp_grid ten later morning.outside.market) ≡ [])
          × (w'.outside ≡ morning.outside))
        ⊎ IsClosed "run" w'.outside)
run_closes_example =
    run_closes whole-IsFloat parts NoTrade parts-IsCalm ("A" ∷ []) ten later morning morning-IsSound

-- three equity points, into a buffer of two
abbrev points : List (String × SnapshotRow ℤ)
points =
    equity_entry "run" ten account
    ∷ equity_entry "run" (ten + 1) account
    ∷ equity_entry "run" (ten + 2) account
    ∷ []

-- a database that refuses nothing
abbrev accepting : Rows (SnapshotRow ℤ) → Rows (SnapshotRow ℤ) → Option Error
accepting pending stored = none

abbrev two_stored : WriteBuffer (SnapshotRow ℤ)
two_stored = record {
  max_rows = 2;
  pending = ("equity_snapshots", (equity_entry "run" (ten + 2) account).1 ∷ []) ∷ [];
  count = 1;
  stored =
      (
        "equity_snapshots",
        (equity_entry "run" ten account).1 ∷ (equity_entry "run" (ten + 1) account).1 ∷ [],
      )
      ∷ [];
}

abbrev three_stored : WriteBuffer (SnapshotRow ℤ)
three_stored = record {
  max_rows = 2;
  pending = [];
  count = 0;
  stored = ("equity_snapshots", map (λ entry. entry.1) points) ∷ [];
}

points_added : add_all accepting points (empty_buffer 2 []) ≡ (ok tt, two_stored)
unfolding add_all add flush commit append_rows insert_all empty_buffer get put
points_added = refl

points_flushed : flush accepting two_stored ≡ (ok tt, three_stored)
unfolding flush commit append_rows insert_all get put
points_flushed = refl

flush-write_all_example :
    rows_of three_stored.stored "equity_snapshots"
    ≡ rows_of (write_all points []) "equity_snapshots"
flush-write_all_example =
    flush-write_all accepting 2 [] points two_stored three_stored points_added points_flushed
      "equity_snapshots"

add_all-bounded_example :
    (size (add_all accepting points (empty_buffer 2 [])).1.pending < 2)
    × ((add_all accepting points (empty_buffer 2 [])).1.count
        ≡ size (add_all accepting points (empty_buffer 2 [])).1.pending)
add_all-bounded_example = add_all-bounded accepting 2 [] points (omega arith)
