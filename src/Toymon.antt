-- ===== src/Toymon.antt =====
-- monitors/toymon/main.c: a monitor with one word of state.
pub mod Monitor
pub mod Calls
mod Tests
