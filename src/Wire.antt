-- ===== src/Wire.antt =====
-- p11kit/rpc.go: the wire format.
pub mod Buffer
pub mod Dates
pub mod Attributes
pub mod Mechanisms
pub mod Body
pub mod Message
