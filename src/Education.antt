-- ===== src/Education.antt =====
-- education: what the learner is advised to do, and the guided session that records what came of it.
pub mod Errors
pub mod Encoding
pub mod Actions
pub mod GuidedSession
pub mod Findings
pub mod Recommendations
