-- ===== src/Commute.antt =====
-- The commute planner's trip-trace ingest (commute/).
pub mod Tables
pub mod Store
pub mod Tokens
pub mod Retention
pub mod Rows
pub mod Ledger
pub mod Replay
pub mod History
pub mod Access
pub mod App
pub mod Requests
mod Examples
