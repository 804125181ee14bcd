-- ===== src/Certikos.antt =====
-- monitors/certikos: a monitor that isolates processes, each with a range of pages, and switches
-- between them on a yield.
pub mod State
pub mod Proc
pub mod Traps
pub mod Nospec
pub mod Invariant
pub mod Spawn
pub mod Yield
pub mod Trap
pub mod Boot
pub mod Quota
pub mod Guard
pub mod Reach
mod Tests
