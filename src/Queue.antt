-- ===== src/Queue.antt =====
-- uli/ingestion/queue.py: the in-memory queue and the consumer of a Redis stream.
pub mod Memory
pub mod Order
pub mod Stream
pub mod Delivery
