-- ===== src/ThreadPool/Inv.antt =====
-- What holds of the pool of src/threadpool.c between two critical sections.
pub mod Defs
mod Jobs
mod Turns
pub mod Sections
pub mod Workers
