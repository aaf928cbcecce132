-- ===== src/Normalization.antt =====
-- uli/normalization/ocsf.py: from the result of a parser to the normalized event.
pub mod Tree
pub mod Body
pub mod Normalize
pub mod Kept
pub mod Header
pub mod Unmapped
pub mod Link
pub mod Secrets
