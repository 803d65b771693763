-- ===== src/Dataset.antt =====
-- modeling/dataset.py: the rows that a model is trained on. A grid of scheduled bars is a dict from
-- the start of a bar to its local date.
pub mod Clean
pub mod Evidence
pub mod Gaps
pub mod Rows
pub mod Build
