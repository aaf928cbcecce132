-- ===== src/Drift.antt =====
-- uli/drift/parser_drift.py: the monitor of a parser's shapes and confidences.
pub mod Resource
pub mod Correlator
pub mod Divergence
pub mod Monitor
pub mod Bounds
pub mod Agent
