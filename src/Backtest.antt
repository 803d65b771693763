-- ===== src/Backtest.antt =====
-- services/backtest/market_data.py, backtest/runner.py and the tables of persistence/ that a
-- backtest writes its orders and trades to: the replay of historical bars through the engine.
pub mod Market
pub mod Store
pub mod Runner
pub mod Buffer
