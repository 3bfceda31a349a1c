-- ===== src/Tests.antt =====
-- Runs of the definitions and instances of the theorems at concrete inputs.
mod ScoreTests
mod IngestionTests
mod RuntimeTests
mod PairingTests
mod ReadinessTests
mod RepositoryTests
mod ServiceTests
mod IngestionServiceTests
mod GuidedTests
mod RecommendationTests
