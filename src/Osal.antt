-- ===== src/Osal.antt =====
-- The operating system abstraction layer, src/osal.
pub mod Status
pub mod Time
pub mod Littlefs
pub mod Mount
pub mod File
pub mod Resources
pub mod Timer
pub mod Mutex
pub mod Task
pub mod Queue
pub mod Semaphore
pub mod Transfer
pub mod Esp
