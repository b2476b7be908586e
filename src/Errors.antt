-- ===== src/Errors.antt =====
-- std::error_code as the program makes it: every error enum, the category class beside it in the
-- source and its `make_error_code` (shared, order-service/models, worker-service/processing).
mod Enums
mod Codes
pub mod Messages
pub use Enums.*
unfoldable pub use Codes.*
