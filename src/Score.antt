-- ===== src/Score.antt =====
-- core/score: the tick grid, tempo maps, canonical order and revisions.
pub mod Errors
pub mod Rounding
pub mod Timing
pub mod Tempo
pub mod Timeline
pub mod Meter
pub mod Canonicalize
pub mod Provenance
pub mod Models
pub mod Digest
pub mod Ids
pub mod Revisions
pub mod Service
pub mod Repository
