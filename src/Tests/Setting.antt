-- ===== src/Tests/Setting.antt =====
-- What the runs take for granted: a market in UTC, numbers shown as "n", and a few market objects.
use carcharoth.Base.{ℕ, [], ◌∷◌, ◌/◌, ◌%◌, none}
use carcharoth.Base.Int.{ℤ, pos}
use carcharoth.Base.Format.{Format}
use carcharoth.Domain.{Position, Quote, Bar, ExposureIntent, TargetExposure, AccountState}
use carcharoth.Session.{MarketZone}

instance abbrev pub utc : MarketZone
utc = record { local_date = λ t. t / 86_400_000_000; time_of_day = λ t. t % 86_400_000_000 }

instance abbrev pub plain : Format ℤ
plain = record { fixed = λ n x. "n"; percent = λ n x. "n%"; whole_number = λ n. "n" }

-- 10:00 on day 0
abbrev pub ten : ℕ
ten = 36_000_000_000

abbrev pub position : ℤ → Position ℤ
position n = record {
  symbol = "A";
  qty = n;
  avg_entry_price = pos 10;
  market_value = pos 100;
  unrealized_pnl = pos 0;
  current_price = pos 10;
}

abbrev pub quote : Quote ℤ
quote = record {
  symbol = "A";
  timestamp = ten;
  bid_price = pos 9;
  ask_price = pos 10;
  bid_size = pos 1;
  ask_size = pos 1;
}

abbrev pub bar : ℕ → ℕ → Bar ℤ
bar t price = record {
  symbol = "A";
  timestamp = t;
  open_price = pos price;
  high = pos price;
  low = pos price;
  close = pos price;
  volume = pos 1;
}

abbrev pub intent : TargetExposure → ExposureIntent ℤ
intent target = record {
  symbol = "A";
  target = target;
  model_id = "m";
  schema_hash = "h";
  reason = "";
  prediction = none;
  features = none;
  timestamp = none;
}

abbrev pub account : AccountState ℤ
account = record {
  equity = pos 1000;
  cash = pos 1000;
  buying_power = pos 2000;
  last_equity = pos 1000;
  positions = [];
}

-- the account with a position in "A"
abbrev pub holding_account : ℤ → AccountState ℤ
holding_account n = record account { positions = ("A", position n) ∷ [] }
