-- ===== src/Adapters.antt =====
-- evidence_engine/adapters/outbound: the in-memory adapters behind the application's ports.
pub mod Media
pub mod SessionStore
pub mod EvidenceStore
pub mod Streaming
pub mod Quotas
