-- ===== src/Api.antt =====
-- uli/api: who a request is from, and what the handlers answer.
pub mod Auth
pub mod Keys
pub mod Handlers
pub mod Complete
pub mod Suggest
