-- ===== src/Token.antt =====
-- p11kit/attribute.go: objects, their attributes, and what their keys do.
pub mod Keys
pub mod Object
pub mod Env
pub mod Sign
pub mod Derive
pub mod Create
pub mod Generate
