-- ===== src/Evidence.antt =====
-- evidence_engine/domain/evidence: the ledger of findings, co-occurrences, and the document.
pub mod Ledger
pub mod Cooccurrence
pub mod Document
