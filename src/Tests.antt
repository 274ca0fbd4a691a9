-- ===== src/Tests.antt =====
-- Concrete inputs of the theorems.
pub mod Queues
pub mod Transfers
pub mod Sessions
pub mod Workers
pub mod Devices
pub mod Programs
pub mod Messages
pub mod Wakeups
