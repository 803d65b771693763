-- ===== src/Tests.antt =====
-- Concrete runs of the modelled code, and each theorem at an input that meets its hypotheses. The
-- numbers are whole (Base/Float/Whole).
mod Setting
mod Policy
mod Replay
mod Trading
mod Research
mod Data
mod Desk
