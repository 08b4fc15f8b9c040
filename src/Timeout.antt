-- ===== src/Timeout.antt =====
-- Timeouts: `core::time::Duration`, and what a timeout means to a thread that waits.
-- The children hold the conversions of each platform to the units of its kernel interface.
pub mod Duration
pub mod Timespec
pub mod Counted
pub mod Signed
pub mod Deadline
pub mod Rounding
mod Examples
