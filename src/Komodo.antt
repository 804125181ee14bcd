-- ===== src/Komodo.antt =====
-- monitors/komodo: secure enclaves made of pages that the monitor types and counts.
pub mod State
pub mod Monitor
pub mod World
pub mod Traps
pub mod Invariant
pub mod Accounts
pub mod Calls
pub mod Allocs
pub mod Trap
pub mod Tables
pub mod Confine
pub mod Walk
pub mod Paging
pub mod Refusal
pub mod Guard
pub mod Isolation
pub mod Context
mod Tests
