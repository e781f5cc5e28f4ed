-- ===== src/Jcstoken.antt =====
-- jcstoken/token.go: the strict JSON parser.
pub mod Options
pub mod State
pub mod Value
pub mod Strings
pub mod Number
pub mod Parser
