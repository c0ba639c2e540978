-- ===== src/Record/Payloads.antt =====
-- The payload structs of the record kinds (src/record/payloads.rs).
mod Artifacts
mod Operations
mod Plans
mod Evolution
unfoldable pub use Artifacts.*
pub use Operations.*
pub use Plans.*
unfoldable pub use Evolution.*
