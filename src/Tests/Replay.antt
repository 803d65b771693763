-- ===== src/Tests/Replay.antt =====
-- The simulated broker on concrete orders and bars.
use carcharoth.Base.{ℕ, String, [], ◌∷◌, true, none, some, ◌≡◌, ◌≢◌, ◌⊎◌, refl}
use carcharoth.Base.Int.{ℤ, pos, ◌+ℤ◌, ◌-ℤ◌, ◌*ℤ◌}
use carcharoth.Base.Eq.{string_eq}
use carcharoth.Base.Float.{◌⊖◌, ◌⊗◌}
use carcharoth.Base.Float.Whole.{whole, whole-IsFloat}
use carcharoth.Base.Dict.{Dict, get, put, remove}
use carcharoth.Base.Result.{ok}
use carcharoth.Domain.{OrderRequest, OrderResult, OrderStatus, Side, Bar, is_terminal}
use carcharoth.Broker.Account.{Broker, init, require_time, get_account_state}
use carcharoth.Broker.Orders.{submit, get_order, cancel_order, cancel_pending}
use carcharoth.Broker.Fills.{
  mark_to_market, update_closes, signed_qty, fill_price, fill_order, fill_pending, fill_all,
  roll_session, conclude_fill, try_fill, fill_at, apply_if_funded, conclude_try, conclude_settling,
  validate_buying_power, apply_fill, settle_holding,
}
use carcharoth.Broker.Invariant.{IsValid}
use carcharoth.Broker.Replay.{Replays, mark_to_market-Replays}
use carcharoth.Broker.Steps.{Step, Reach, Reach-IsValid, terminal_forever}
use carcharoth.Broker.Calls.{init-IsValid}
use carcharoth.Broker.Closing.{cancel_pending_closes}
use carcharoth.Broker.Holdings.{IsRefused}
use carcharoth.Broker.Money.{Settled, fill_order_atomic, apply_fill_accounts}
use carcharoth.Tests.Setting.{utc, bar, ten}

abbrev pub start : Broker ℤ
start = record {
  cash = pos 1000;
  spread_pct = pos 0;
  slippage_pct = pos 0;
  margin_multiplier = pos 2;
  holdings = [];
  closes = [];
  orders = [];
  pending = [];
  as_of = none;
  last_equity = pos 1000;
  session_date = none;
}

pub start-IsValid : IsValid start
unfolding init
start-IsValid = init-IsValid (pos 1000) (pos 0) (pos 0) (pos 2)

-- after a first bar for "A" at 10
abbrev marked : Broker ℤ
marked = record start { closes = ("A", pos 10) ∷ []; as_of = some ten; session_date = some 0 }

abbrev request : OrderRequest ℤ
request = record { symbol = "A"; side = Side.buy; qty = pos 3; client_order_id = none }

abbrev pub accepted_a : OrderResult ℤ
accepted_a = record {
  broker_order_id = "1";
  client_order_id = none;
  symbol = "A";
  side = Side.buy;
  qty = pos 3;
  status = OrderStatus.accepted;
  filled_qty = pos 0;
  filled_avg_price = none;
  submitted_at = ten;
  filled_at = none;
}

abbrev ordered : Broker ℤ
ordered = record marked { orders = ("1", accepted_a) ∷ []; pending = ("1", request) ∷ [] }

abbrev bars_at : ℕ → Dict String (Bar ℤ)
bars_at price = ("A", bar ten price) ∷ []

first_bar : mark_to_market ten (bars_at 10) start ≡ ok marked
unfolding mark_to_market fill_pending fill_all require_time update_closes roll_session put
first_bar = refl

submitting : submit "1" request marked ≡ ok (accepted_a, ordered)
unfolding submit get put
submitting = refl

Reach-ordered : Reach start ordered
Reach-ordered =
    Reach.next {c = marked}
      (Reach.next {c = start} Reach.here (Step.marks ten (bars_at 10) first_bar))
      (Step.submits "1" request accepted_a (unfold get in refl) submitting)

ordered-IsValid : IsValid ordered
ordered-IsValid = Reach-IsValid whole-IsFloat start-IsValid Reach-ordered

-- the order is filled at the next bar's open
abbrev pub filled_a : OrderResult ℤ
filled_a = record accepted_a {
  status = OrderStatus.filled;
  filled_qty = pos 3;
  filled_avg_price = some (pos 11);
  filled_at = some ten;
}

abbrev pub bought : Broker ℤ
bought = record marked {
  cash = pos 967;
  holdings = ("A", record { qty = pos 3; avg_entry_price = pos 11 }) ∷ [];
  closes = ("A", pos 11) ∷ [];
  orders = ("1", filled_a) ∷ [];
  pending = [];
}

second_bar : mark_to_market ten (bars_at 11) ordered ≡ ok bought
unfolding mark_to_market fill_pending fill_all fill_order conclude_fill try_fill fill_at
    apply_if_funded conclude_try conclude_settling fill_price validate_buying_power
    get_account_state apply_fill settle_holding signed_qty require_time update_closes roll_session
    put get remove ◌+ℤ◌ ◌-ℤ◌ ◌*ℤ◌
second_bar = refl

pub bought-IsValid : IsValid bought
bought-IsValid =
    Reach-IsValid whole-IsFloat start-IsValid
      (Reach.next {c = ordered} Reach-ordered (Step.marks ten (bars_at 11) second_bar))

Reach-IsValid_example : IsValid bought
Reach-IsValid_example =
    Reach-IsValid whole-IsFloat start-IsValid
      (Reach.next {c = ordered} Reach-ordered (Step.marks ten (bars_at 11) second_bar))

mark_to_market-Replays_example :
    (b' : Broker ℤ) × (mark_to_market ten (bars_at 11) ordered ≡ ok b')
    × Replays (bars_at 11) ordered.pending ordered b'
mark_to_market-Replays_example =
    mark_to_market-Replays whole-IsFloat ten (bars_at 11) ordered ordered-IsValid

-- a second order after the first is filled, and an attempt to cancel the first
abbrev accepted_b : OrderResult ℤ
accepted_b = record accepted_a { broker_order_id = "2" }

abbrev ordered_again : Broker ℤ
ordered_again = record bought {
  orders = ("1", filled_a) ∷ ("2", accepted_b) ∷ [];
  pending = ("2", request) ∷ [];
}

submitting_again : submit "2" request bought ≡ ok (accepted_b, ordered_again)
unfolding submit get put
submitting_again = refl

cancelling_filled : cancel_order "1" ordered_again ≡ ok ordered_again
unfolding cancel_order get_order get
cancelling_filled = refl

Reach-ordered_again : Reach bought ordered_again
Reach-ordered_again =
    Reach.next {c = ordered_again}
      (Reach.next {c = bought} Reach.here
        (Step.submits "2" request accepted_b (unfold get in refl) submitting_again))
      (Step.cancels "1" cancelling_filled)

terminal_forever_example : get ordered_again.orders "1" ≡ some filled_a
terminal_forever_example =
    terminal_forever whole-IsFloat "1" filled_a bought-IsValid (unfold get in refl) refl
      Reach-ordered_again

cancel_pending_closes_example :
    (c : Broker ℤ) × (cancel_pending ordered ≡ ok c)
    × IsValid c
    × ((id : String) → get c.pending id ≡ none)
    × ((id : String) (o : OrderResult ℤ) → get c.orders id ≡ some o → is_terminal o.status ≡ true)
    × ((id : String) (o : OrderResult ℤ)
        → get ordered.orders id ≡ some o
        → is_terminal o.status ≡ true
        → get c.orders id ≡ some o)
cancel_pending_closes_example = cancel_pending_closes ordered ordered-IsValid

abbrev after_fill : Broker ℤ
after_fill = record bought { closes = marked.closes }

one_fill : fill_order ordered "1" request ten (some (bar ten 11)) ≡ ok after_fill
unfolding fill_order conclude_fill try_fill fill_at apply_if_funded conclude_try conclude_settling
    fill_price validate_buying_power get_account_state apply_fill settle_holding signed_qty put get
    remove ◌+ℤ◌ ◌-ℤ◌ ◌*ℤ◌
one_fill = refl

fill_order_atomic_example :
    (o : OrderResult ℤ) × (get after_fill.orders "1" ≡ some o)
    × (((o.status ≡ OrderStatus.rejected)
          × IsRefused ordered request (pos 11)
          × (after_fill.cash ≡ ordered.cash)
          × (after_fill.holdings ≡ ordered.holdings))
        ⊎ ((o.status ≡ OrderStatus.filled)
            × ((price : ℤ) × (fill_price ordered Side.buy (pos 11) ≡ ok price)
                × (o.filled_avg_price ≡ some price)
                × (o.filled_qty ≡ pos 3)
                × (after_fill.cash ≡ ordered.cash ⊖ signed_qty request ⊗ price)
                × Settled
                    (get ordered.holdings "A")
                    (signed_qty request)
                    (get after_fill.holdings "A"))))
fill_order_atomic_example =
    fill_order_atomic whole-IsFloat ordered after_fill "1" request ten (bar ten 11) ordered-IsValid
      (unfold get in refl) one_fill

one_apply :
    apply_fill ordered request (pos 11)
    ≡ (ok tt, record after_fill { orders = ordered.orders; pending = ordered.pending })
unfolding apply_fill conclude_settling settle_holding signed_qty put get remove ◌+ℤ◌ ◌-ℤ◌ ◌*ℤ◌
one_apply = refl

apply_fill_accounts_example :
    (after_fill.cash ≡ ordered.cash ⊖ signed_qty request ⊗ pos 11)
    × Settled (get ordered.holdings "A") (signed_qty request) (get after_fill.holdings "A")
    × ((s : String) → "A" ≢ s → get after_fill.holdings s ≡ get ordered.holdings s)
apply_fill_accounts_example = apply_fill_accounts whole-IsFloat ordered _ request (pos 11) one_apply
