-- ===== src/Evolution.antt =====
-- uli/drift/evolution.py: alignment of two token-class sequences and label transfer.
pub mod Align
pub mod Optimal
pub mod Table
pub mod Transfer
pub mod Aligned
pub mod Carried
pub mod Synthesis
