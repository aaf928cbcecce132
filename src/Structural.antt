-- ===== src/Structural.antt =====
-- uli/parsers/structural.py: the parsers of the formats that no vendor owns.
pub mod Severity
pub mod Flatten
pub mod Flat
pub mod Parts
pub mod Json
pub mod Cef
pub mod Syslog
pub mod Lines
pub mod Dispatch
pub mod Errors
