-- ===== src/Broker.antt =====
-- services/backtest/broker.py: the simulated broker. Fresh order ids (`uuid4`) are arguments.
-- A method returns its result with the broker it leaves, or the exception; `submit` and
-- `cancel_order` raise before they change anything, and where `mark_to_market` raises, the run ends.
pub mod Account
pub mod Orders
pub mod Fills
pub mod Book
pub mod Holdings
pub mod Invariant
pub mod Replay
pub mod Calls
pub mod Steps
pub mod Closing
pub mod Money
pub mod Follows
pub use Account.{
  Holding, Broker, price_of, equity, position_of, get_account_state, init, require_time,
}
