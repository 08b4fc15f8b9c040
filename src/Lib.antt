-- ===== src/Lib.antt =====
-- Verification of valet_parking, a library that parks threads on a single atomic: `Waiters`, where
-- many threads wait for a value of an `AtomicUsize` to change, and `Parker`, where one thread parks
-- until another unparks it.
--
-- The parts. The front end (src/lib.rs) forwards to one implementation per target. Where the system
-- has a futex, src/futex/mod.rs builds both interfaces from the trait `Futex`, which ten modules
-- implement. Elsewhere on Unix, src/posix.rs builds Parker from a mutex and a condition variable,
-- and src/waiter_queue.rs builds Waiters from Parker. src/fortanix.rs builds Parker
-- from usercalls of SGX, with the same waiter queue. src/windows.rs finds out at run time what
-- there is, and src/darwin.rs chooses by the release of the kernel. The example
-- examples/test_synchronization.rs builds a cell that is written once on Waiters.
--
-- Which file models which part:
--   Prelude, Word       shared names and lemmas; machine words, where `Target` is the number of bytes
--                       of a usize and the byte order
--   Reserved            FREE_BITS, RESERVED_BITS, RESERVED_MASK (src/lib.rs); Reserved/Fields cuts a
--                       word into its public and its reserved bits by division
--   Timeout             the `convert_timeout*` functions of src/futex/*.rs, src/posix.rs and
--                       src/windows.rs, and what their kernels make of the results
--   Futex               `wait` and `wake` of the ten modules of src/futex/, one file each
--   Selection           the `cfg` conditions on `imp` (src/lib.rs)
--   Contract            what the documentation of `Waiters` and `Parker` in src/lib.rs allows callers to
--                       see; the modules Refinement of the implementations are against it
--   FutexWaiters        `compare_and_wait`, `store_and_wake`, `get_i32_ref` (src/futex/mod.rs)
--   FutexParker         `park`, `unpark` (src/futex/mod.rs)
--   PosixParker         `park`, `unpark`, `condvar_wait`, `condvar_wait_timed` (src/posix.rs)
--   WaiterQueue         `compare_and_wait`, `store_and_wake` (src/waiter_queue.rs)
--   PosixWaiters        WaiterQueue with a PosixParker in every node, as src/posix.rs uses them
--   FortanixParker      `park`, `unpark` (src/fortanix.rs)
--   Keyed               `compare_and_wait`, `store_and_wake`, `park`, `unpark` over keyed events,
--                       `wait_for_keyed_event`, `release_keyed_events` (src/windows.rs)
--   Darwin              `get_os_release`, `has_ulock` and the functions behind it (src/darwin.rs)
--   OnceCell            the cell of examples/test_synchronization.rs, as a client of the contract of
--                       Waiters; in OnceCell/OnPosix, of PosixWaiters
--   WindowsBackend      `BackendStatic`, `ProbeWaitAddress`, `ProbeKeyedEvent` (src/windows.rs)
--
-- How the concurrent parts are modelled. A thread is the place where it stands in the code, with its
-- local variables. A function by clauses says what the next access of the atomic does, in the order
-- of the code's tests; `System` is the shared memory and the places of all threads, and `Step` relates
-- two of them by one access or one call of the system, of any thread. So all interleavings are there.
-- Threads are numbered by ℕ: their number has no bound, but for those that wait over keyed events,
-- which the reserved bits must be able to count. Every access is one step and is seen at once by
-- all threads, so memory orderings weaker than sequential consistency are not modelled. A weak
-- exchange that fails for no reason only repeats the loop with the same values, and is left out.
-- Calls of the system are steps of their own: a futex wait compares and goes to sleep in one step, and
-- may end for no reason; a mutex is free or held; a wait on a condition variable frees the mutex and
-- sleeps in one step; a wait and a release of a keyed event end together in one step, or each on its
-- own by its timeout. A caller of Waiters may also write the atomic itself, from a value with no
-- reserved bit to another. Memory that a thread gives up is modelled where other threads hold pointers to
-- it: PosixParker, FortanixParker and WaiterQueue have a step that records the use of a pointer to
-- an object that is gone. In WaiterQueue the Parker inside a node is taken by what it promises: `park`
-- returns after `unpark` has been called on it, and `unpark` is one step. PosixWaiters makes no such
-- assumption: it has a PosixParker in every node, and takes the steps of both. OnceCell is over
-- Contract, in which a step may set reserved bits while a thread waits for the value that there is, and
-- a load reads the value with reserved bits only if they may be set.
--
-- The conversions of timeouts are functions on `Duration`, a number of seconds below 2^64 and of
-- nanoseconds below 10^9; `checked_*` operations on u64 and i64 are written with their bounds. There is
-- no recursion on fuel: the loops of the code are cycles of the step relations, and termination is
-- stated as a run of steps of the calls under way that ends.
--
-- Not modelled: `errno` and `as_mut_ptr` of src/utils.rs, which only read a variable of libc and cast
-- a pointer; in examples/test_synchronization.rs, `Clone` and the threads of `main`.
pub mod Prelude
pub mod Word
pub mod Reserved
pub mod Timeout
pub mod Futex
pub mod FutexParker
pub mod PosixParker
pub mod PosixWaiters
pub mod WaiterQueue
pub mod FutexWaiters
pub mod WindowsBackend
pub mod FortanixParker
pub mod Selection
pub mod Contract
pub mod Keyed
pub mod Darwin
pub mod OnceCell
