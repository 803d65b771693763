-- ===== src/Engine.antt =====
-- engine/engine.py: one tick of the trading engine. The services and repositories are an interface;
-- logging and the performance counters are left out, since nothing reads them back.
pub mod Effects
pub mod Services
pub mod Tick
pub mod Quiet
pub mod Submits
pub mod Orders
pub mod Reconcile
pub mod Ticks
pub mod Keeps
pub mod Steady
pub mod Scheduler
