-- ===== src/Tests.antt =====
-- Examples: small platforms, logs and a writer on them, and the theorems at these inputs.
pub mod World
pub mod Ledger
pub mod Writing
pub mod Batches
pub mod Checkpoints
pub mod Shown
pub mod Spending
pub mod Times
pub mod Keys
pub mod Examples
