-- ===== src/Domain.antt =====
-- internal/domain: the error type and the records that the layers exchange.
pub mod Errors
pub mod Models
pub mod Numbers
pub mod Calendar
