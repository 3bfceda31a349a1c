-- ===== src/Ingestion.antt =====
-- core/ingestion: from captured note messages to canonical events.
pub mod Contracts
pub mod Conversion
pub mod Policy
pub mod Requests
pub mod Results
pub mod Fingerprint
pub mod Service
