-- ===== src/Shared.antt =====
-- evidence_engine/domain/shared: the value objects that every other package uses.
pub mod Errors
pub mod Effects
pub mod Respect
pub mod Timeline
pub mod Provenance
pub mod Measurement
pub mod Taxonomy
