-- ===== src/Keystone.antt =====
-- monitors/keystone: a monitor that runs enclaves, each in a region of physical memory that no one
-- else may access.
pub mod State
pub mod Pmp
pub mod Enclave
pub mod Traps
pub mod Invariant
pub mod Create
pub mod Destroy
pub mod Resume
pub mod Run
pub mod Exit
pub mod Trap
pub mod Repeat
pub mod Context
pub mod Switch
mod Tests
