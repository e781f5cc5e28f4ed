-- ===== src/Worker.antt =====
-- cmd/jcs-offline-worker/main.go: the command that replays the vectors of a bundle on a node.
pub mod Vectors
pub mod Checksums
pub mod Arguments
pub mod Records
pub mod Replayed
pub mod Later
pub mod Intact
pub mod Run
pub mod Evidence
