-- ===== src/Http.antt =====
-- internal/http: the parsing of requests, the management key, and the mapping of errors.
pub mod Params
pub mod Auth
pub mod Respond
pub mod Handlers
pub mod Routes
