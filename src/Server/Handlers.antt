-- ===== src/Server/Handlers.antt =====
-- The handlers of p11kit/p11kit.go.
pub mod Info
pub mod Sessions
pub mod Objects
pub mod Signing
pub mod NewKeys
