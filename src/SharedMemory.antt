-- ===== src/SharedMemory.antt =====
-- Assignment/2_3: processes that pass characters through a ring in shared memory, and a semaphore.
pub mod Processes
pub mod Ring
pub mod Queue
pub mod Invariant
pub mod Safety
pub mod Token
pub mod Handshake
pub mod Setup
pub mod Forked
mod Tests
mod ForkTests
