-- ===== src/Corpus.antt =====
-- src/corpus: the tools that compare the annotations of two annotators.
pub mod Scores
pub mod Records
pub mod Matching
