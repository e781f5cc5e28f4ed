-- ===== src/Jcs.antt =====
-- jcs/serialize.go: RFC 8785 serialization.
pub mod Escape
pub mod Keys
pub mod Validate
pub mod Serialize
pub mod Canon
