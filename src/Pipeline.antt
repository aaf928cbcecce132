-- ===== src/Pipeline.antt =====
-- uli/pipeline.py: from an envelope to a stored event, singly and in batches.
pub mod Parts
pub mod Single
pub mod Batch
pub mod Total
pub mod Complete
