-- ===== src/Threads.antt =====
-- threads: scheduling and synchronization.
pub mod Mlfqs
pub mod Scheduler
pub mod Priorities
pub mod Synch
