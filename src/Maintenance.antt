-- ===== src/Maintenance.antt =====
-- internal/memory/maintenance: the quarantine status of a fact, the analysis of a collection, and
-- the service that quarantines and restores what the analysis found.
pub mod Status
pub mod Classify
pub mod Analyze
pub mod Request
pub mod Service
pub mod Purge
