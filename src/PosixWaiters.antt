-- ===== src/PosixWaiters.antt =====
-- The Waiters of the systems that use src/posix.rs: the list of src/waiter_queue.rs, with a Parker of
-- src/posix.rs in every node. It puts WaiterQueue and PosixParker together.
pub mod System
pub mod Parking
pub mod Linked
pub mod Invariant
pub mod Safety
pub mod Refinement
pub mod Running
pub mod Settling
pub mod Progress
mod Examples
