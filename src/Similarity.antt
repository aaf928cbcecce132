-- ===== src/Similarity.antt =====
-- uli/detection/similarity.py, with `shape_ngrams` and `jaccard` of uli/fingerprint.py.
pub mod Index
pub mod Room
