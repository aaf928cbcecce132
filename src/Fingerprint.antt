-- ===== src/Fingerprint.antt =====
-- uli/fingerprint.py: from a line to its tokens, their classes, and its shape.
pub mod Unicode
pub mod Patterns
pub mod Classify
pub mod Tokenize
pub mod Shape
