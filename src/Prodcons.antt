-- ===== src/Prodcons.antt =====
-- Examples/Threads/prodcons_threads.c and its variants 1, 2 and 3: lines of input pass through a
-- buffer of five slots between threads, under two mutexes and three semaphores.
pub mod Buffer
pub mod Calls
pub mod Threads
pub mod Invariant
pub mod Safety
pub mod Variants
pub mod Progress
mod Tests
