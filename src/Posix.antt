-- ===== src/Posix.antt =====
-- DC_PAL_Posix: threads, semaphores and clocks over pthreads.
pub mod Events
pub mod Thread
pub mod Deadline
pub mod Semaphore
pub mod WorkerRun
pub mod Threads
pub mod FileSystem
pub mod WorkerLife
