-- ===== src/Darwin.antt =====
-- src/darwin.rs: the release of the kernel decides, at run time, between the implementations over ulock
-- and over posix.
pub mod Utf8
pub mod Release
pub mod Text
pub mod System
pub mod Safety
mod Examples
