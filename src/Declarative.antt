-- ===== src/Declarative.antt =====
-- uli/parsers/declarative.py: the parsers that a vendor's pack describes.
pub mod Signatures
pub mod Required
pub mod Extracts
pub mod Mapping
pub mod Kept
pub mod Packs
