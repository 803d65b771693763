-- ===== src/Lib.antt =====
-- carcharoth, a trading bot in Python: a model of its trading, simulation and analysis code, with
-- the theorems that make these parts correct.
--
-- The parts and how they interact. A tick of the trading engine takes a market snapshot, asks the
-- signal generator for the exposure that the model wants in each symbol, has the risk manager turn
-- it into an order or reject it, and submits the order to a broker, live or simulated; the
-- scheduler runs the ticks. The signal generator evaluates each completed bar once: features,
-- prediction, decision policy. The quick test drives a model over the bars of one symbol with fills
-- of its own. The analysis matches trades into round trips and computes the metrics and the fitness
-- of a run. A backtest replays historical bars: the runner moves the cursor of the market data,
-- marks the simulated broker to each bar and runs a tick of the engine, whose orders and trades go
-- to the tables of the run. The dataset of a training is made of cleaned bars, and its symbols are
-- chosen by the evidence on them.
--
-- Which file models which part (paths from the repository's root):
--   Base      names that all modules share: dicts as association lists in insertion order, lists,
--             stable sorting, exceptions as the values of `Result`, Python's `int`, and `float`
--   Domain    src/carcharoth/domain/models.py and domain/errors.py
--   Session   src/carcharoth/features/session.py: the regular session
--   Decision  src/carcharoth/modeling/decision.py: `DecisionPolicy.decide` is `decide`
--   Signal    src/carcharoth/modeling/signal_generator.py: `XGBoostSignalGenerator.generate` is
--             `generate` on the record `Generator` of its attributes
--   Risk      src/carcharoth/risk/basic.py: `BasicRiskManager.assess` is `assess`
--   Broker    src/carcharoth/services/backtest/broker.py: the attributes of `SimulatedBroker` are the
--             record `Broker` (Broker/Account), each method a function on it (Account, Orders, Fills)
--   Engine    src/carcharoth/engine/engine.py and engine/scheduler.py: `TradingEngine.tick` is `tick`
--             (Engine/Tick) over a record of services (Engine/Services), with the calls made so far
--             kept in a log (Engine/Effects); `Scheduler.run_forever` is `run_forever`
--   Quicktest src/carcharoth/quicktest/simulator.py and quicktest/result.py
--   Metrics   src/carcharoth/analysis/metrics.py and analysis/objective.py
--   Config    src/carcharoth/config/app_config.py: the sections and their validators, and
--             config/overrides.py (Overrides)
--   Dataset   src/carcharoth/modeling/dataset.py: `_clean` (Clean), `window_evidence` (Evidence), the
--             prefix sums of gaps (Gaps), the rows of a symbol (Rows), and `dataset_from_prepared`,
--             `prepare_dataset`, `build_dataset` and `select_symbols` (Build)
--   Eligibility  src/carcharoth/modeling/eligibility.py: `window_reasons` and `assess`
--   Backtest  src/carcharoth/services/backtest/market_data.py (Market), the repositories of orders
--             and trades in persistence/repositories.py (Store), the write buffer of
--             persistence/buffered.py (Buffer), and backtest/runner.py with the wiring of main.py
--             (Runner): `desk_services` are the engine's services over a `Desk` of market data,
--             broker and tables
--   Tests     concrete runs
-- The other files below these prove what their first lines name.
--
-- What is a parameter. A `float` is any type with the operations of Base/Float; the theorems that
-- need more name the facts of IEEE 754 that they use (`IsFloat`, `IsSubtraction` in
-- Metrics/Matching/Loop and `IsSigned` in Risk/Closing), which hold of every double, and the tests
-- use whole numbers. The formatting of numbers in messages (Base/Format), the time zone database
-- (`MarketZone`), the `statistics` and `math` modules, `uuid4`, the predictor and the feature
-- pipeline, the exchange calendar's grid of bars, and what a backtest is given beside its market
-- data, broker and tables (`Parts` in Backtest/Runner) are parameters too, and so is the database's
-- refusal of a transaction (Backtest/Buffer). The bounds of pydantic's fields refuse a value that
-- violates them, so that a NaN passes. An aware `datetime` is a number of microseconds, and a date
-- is its ordinal.
--
-- Fuel. Only the loop of `match_round_trips` runs on fuel: a turn for each lot and two more. A turn
-- uses up a lot or what remains of the trade, so no more are needed. Every other loop is over a
-- list.
--
-- Not modelled: log lines and performance counters, which nothing reads back; the services that
-- only call alpaca, redis, optuna or xgboost; the tables of persistence/ other than those of orders
-- and trades; the numeric feature and regime code over numpy; training; the loading of
-- configuration files; the command line; the terminal front end.
pub mod Base
pub mod Domain
pub mod Session
pub mod Decision
pub mod Risk
pub mod Broker
pub mod Engine
pub mod Signal
pub mod Quicktest
pub mod Metrics
pub mod Config
pub mod Dataset
pub mod Eligibility
pub mod Backtest
pub mod Tests
