-- ===== src/Engine.antt =====
-- uli/engine.py: the circuit breaker, the registry of packs, and the ladder of parsers.
pub mod Breaker
pub mod Registry
pub mod Trust
pub mod Ladder
pub mod Open
pub mod Fallback
pub mod Run
pub mod Best
pub mod Tier
pub mod Total
pub mod Fields
