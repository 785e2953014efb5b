-- ===== src/ProcSeq.antt =====
-- KernelDrivers_March2011/proc_seq_example1.c, 2.c and 3.c: a list of nodes that /proc/readme shows through
-- a `seq_operations` iterator.
pub mod Format
pub mod Nodes
pub mod Iterator
pub mod Module
pub mod Tasks
pub mod Readers
pub mod Readme
pub mod Examples
pub mod Window
mod Tests
mod TaskTests
mod ReaderTests
