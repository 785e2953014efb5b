-- ===== src/JobQueue.antt =====
-- Examples/Threads/thread_mutex_cond.c: a message queue under a mutex and two condition variables.
pub mod Queue
pub mod Threads
pub mod Invariant
pub mod Safety
pub mod Settles
mod Tests
