-- ===== src/Kernel.antt =====
-- The parts of k_startup that are modelled: threads and the schedule, user memory, futexes, pipes.
pub mod Thread
pub mod UserMem
pub mod Futex
pub mod Pipe
pub mod Process
mod Tests
