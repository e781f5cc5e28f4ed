-- ===== src/Replay.antt =====
-- offline/replay and offline/runtime: matrices, profiles, replay runs and the evidence that they leave.
pub mod Outcome
pub mod Config
pub mod Evidence
pub mod Run
pub mod Adapter
pub mod Audit
pub mod Verify
pub mod Dispatch
