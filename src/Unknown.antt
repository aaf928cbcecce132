-- ===== src/Unknown.antt =====
-- uli/detection/unknown.py: the registry of the events that no parser knows.
pub mod Registry
pub mod Rows
pub mod Counts
