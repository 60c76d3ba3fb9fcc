-- ===== src/Events.antt =====
-- evidence_engine/domain/speech_events and domain/visual_events: what is observed in the speech and
-- in the picture, with the guards of its constructors.
pub mod Speech
pub mod Visual
pub mod Prosody
pub mod Guards
pub mod Sight
pub mod Units
pub mod Calibration
mod Tests
