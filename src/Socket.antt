-- ===== src/Socket.antt =====
-- NetSocket (socket.h, socket.cpp): what it asks of the system, its two handlers, and how its
-- state machine is fed.
pub mod Ops
pub mod Events
pub mod Cases
pub mod Shutdown
pub mod Feed
pub mod Api
pub mod Session
pub mod Terminate
pub mod Queued
pub mod Runs
pub mod Outgoing
pub mod Incoming
pub mod Delivery
pub mod Safety
