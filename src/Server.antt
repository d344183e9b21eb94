-- ===== src/Server.antt =====
-- p11kit/p11kit.go: slots, sessions, and the handlers of the calls of a connection.
pub mod Slot
pub mod Session
pub mod State
pub mod Requests
pub mod Handlers
pub mod Loop
pub mod Invariant
pub mod Isolation
pub mod Multipart
pub mod Keeping
pub mod Growth
pub mod System
pub mod Atomic
pub mod Retention
