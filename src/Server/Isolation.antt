-- ===== src/Server/Isolation.antt =====
-- The requests of p11kit/p11kit.go and the sessions that they do not name.
pub mod Requests
pub mod Rules
pub mod Handlers
pub mod Step
