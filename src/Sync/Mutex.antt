-- ===== src/Sync/Mutex.antt =====
-- However the threads' sections interleave, no assertion of the lock, the semaphore or the scheduler
-- fails, and at most one thread is inside the lock.
pub mod Sections
pub mod Semaphore
pub mod Release
pub mod Steps
pub mod Exclusion
