-- ===== src/Sessions.antt =====
-- evidence_engine/domain/sessions: one capture, from its creation to the deletion of its evidence.
pub mod State
pub mod Clock
pub mod Consent
pub mod Capabilities
pub mod Session
pub mod Sequencing
