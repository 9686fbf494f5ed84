-- ===== src/Threads.antt =====
-- What threads share: the task pool of src/base/ThreadPool.cpp, and the functors that other threads
-- give to an event loop.
pub mod TaskPool
pub mod Functors
