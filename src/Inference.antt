-- ===== src/Inference.antt =====
-- uli/parsers/inference.py: the fields, observables and endpoints that are read off any line.
pub mod Observe
pub mod Roles
pub mod Redacted
pub mod Bounded
