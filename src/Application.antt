-- ===== src/Application.antt =====
-- evidence_engine/application: the use cases.
pub mod Callers
pub mod Deletion
pub mod Streaming
pub mod Capture
pub mod Requests
pub mod Creation
pub mod Queries
pub mod Completion
pub mod Assembly
pub mod Coordinator
