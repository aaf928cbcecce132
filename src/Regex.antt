-- ===== src/Regex.antt =====
-- Regular expressions as the source writes them for `re`: their language, `fullmatch`, and the
-- matches of a prefix in the order in which backtracking finds them.
pub mod Defs
pub mod FullMatch
pub mod Prefix
