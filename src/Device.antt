-- ===== src/Device.antt =====
-- NetDevice (device.h, device.cpp): the sockets of a machine and the callbacks of its user.
pub mod State
pub mod Tables
pub mod Ops
pub mod Handler
pub mod Safety
pub mod Routing
pub mod OutSock
pub mod Sending
pub mod Held
pub mod Completion
pub mod Polled
pub mod Callbacks
