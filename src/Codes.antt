-- ===== src/Codes.antt =====
-- The numbers that the protocol gives to calls, return codes, mechanisms and attribute types.
pub mod Calls
pub mod Errors
pub mod Mechanisms
pub mod Attributes
pub mod AttributeNames
pub mod ValueTypes
pub mod Names
