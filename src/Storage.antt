-- ===== src/Storage.antt =====
-- uli/storage/sql.py: the tables of the event storage and what the operations do to them.
pub mod Tables
pub mod Raw
pub mod Events
pub mod Sources
pub mod Parsers
pub mod Clusters
pub mod Drifts
pub mod Stats
pub mod FirstWins
pub mod Isolation
pub mod Writes
