-- ===== src/Performance.antt =====
-- performance: contracts of captures and runtimes, and the deterministic runtime.
pub mod Errors
pub mod Runtimes
pub mod Sessions
pub mod Capture
pub mod CommandResults
pub mod FakeRuntime
pub mod Pairing
