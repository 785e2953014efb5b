-- ===== src/Signals.antt =====
-- Assignment/2_1: signals of processes.
pub mod Children
pub mod Dispositions
mod Tests
