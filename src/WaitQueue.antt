-- ===== src/WaitQueue.antt =====
-- s_data/src/wait_queue.c: the three kinds of wait queue.
pub mod Remove
pub mod Basic
pub mod Vector
pub mod Timed
mod Tests
