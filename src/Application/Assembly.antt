-- ===== src/Application/Assembly.antt =====
-- src/evidence_engine/application/services: what turns a runtime's answer into domain objects,
-- and commands/complete_session.py: what turns those into the document. The
-- hash function is a parameter, `digest`, the first 32 hexadecimal characters of SHA-256.
pub mod Identity
pub mod Calibration
pub mod Speech
pub mod Visual
pub mod Gate
pub mod Fusion
pub mod Document
pub mod Gaps
pub mod Silence
mod Tests
