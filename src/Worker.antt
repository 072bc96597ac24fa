-- ===== src/Worker.antt =====
-- src/thread.c: the worker threads, each with a queue of items and a pipe that tells it of them,
-- and the lists of free items. `Queue` models the two pointers of a queue or a list over items at
-- addresses (`Items`), `Dispatch` the choice of a thread and the traffic over its pipe,
-- `Startup` the start of the threads.
pub mod Items
pub mod Fifo
pub mod FreeList
pub mod Dispatch
pub mod Startup
