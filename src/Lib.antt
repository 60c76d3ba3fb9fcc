-- ===== src/Lib.antt =====
-- Verification of the evidence engine, a service that turns a recorded or streamed presentation
-- into timed evidence. The code is src/evidence_engine. Its domain is pure: values with guarded
-- constructors, and operations that return a new value or raise. The application's use cases load a
-- value from a repository, call the domain and save; the adapters hold the stores.
--
-- Prelude holds the library names that all files share, and Python's data as the code uses it:
-- lists, dicts in insertion order (Assoc), their deletion loops (Batch), `sorted` (Sort, Shuffle),
-- `str` comparison (Text) and signed integers (Int).
--
-- Shared is domain/shared. Errors has the exception classes and `Result`, what a raising function
-- returns; Effects has code that writes to a store and may raise, and what it wrote stays. Timeline
-- is timeline.py, Provenance provenance.py and identifiers.py, Measurement confidence.py and
-- measurement.py.
--
-- Sessions is domain/sessions: State is state.py, Clock clock.py, Consent consent.py, Capabilities
-- capabilities.py, Session session.py and Sequencing sequencing.py. Evidence is domain/evidence:
-- Ledger is ledger.py, Cooccurrence cooccurrence.py and Document document.py. Transcript is
-- domain/transcript, Quality domain/quality/assessment.py.
--
-- Shared.Taxonomy is domain/shared/taxonomy.py with its documentation table. Events is
-- domain/speech_events and domain/visual_events: Speech, Visual, Prosody and Calibration are
-- events.py, events.py, prosody.py and calibration.py. Corpus is src/corpus, the comparison of
-- annotators: Records is schema/records.py, Matching is agreement/matching.py, over an interface of
-- the floats, Scores.
--
-- Adapters is adapters/outbound, in memory: Media is object_storage/in_memory.py, SessionStore and
-- EvidenceStore are persistence/in_memory.py, Streaming and Quotas are cache/in_memory.py.
-- Application is the use cases: Callers is what they need of application/ports, Deletion is
-- commands/delete_evidence.py, Requests and Creation are commands/create_session.py, Queries is
-- queries/read_session.py, Completion with Assembly.Document commands/complete_session.py, Capture
-- is commands/capture_control.py, Assembly is services (Identity, Speech with Gaps and Silence,
-- Visual with Gate, Fusion, Calibration), Streaming is the arrival of chunks in
-- workflows/streaming.py and Coordinator what the same file does with the answer of a runtime.
-- Respect, in Shared, carries a relation between stores through a computation.
--
-- A definition has the name of the function or class it models; a constructor that can raise is a
-- function in lower case (`MonotonicTime(ms)` is `monotonic_time`). Mutable objects are passed as
-- state. Integers are unbounded in the source and here; a number that a constructor has checked to
-- be at least 0 is a natural number. Identifiers are their texts, readings of a clock are
-- arguments, and messages of exceptions are left out. Floats are only stored, or compared through
-- an interface. The one loop that is not over a list or a range, the draining of early chunks in
-- Sequencing, runs on as many rounds as chunks wait, which is proved to be enough. A use case is
-- modelled as running without interruption; the arrivals of chunks interleave, and two creations
-- with one key at its claim.
--
-- SHA-256 is a parameter, and so are `str.lower`, the signing of a stream token, and the comparison
-- and the arithmetic of floats; a theorem that needs their order says so. The table of the matching
-- is a function of the cell, as each cell is written once.
--
-- Not modelled: the transports (REST, WebSocket), the database, Redis and S3 adapters, the model
-- runtimes, telemetry, settings and wiring, the corpus files, validation and measures, the use case
-- that opens a run, and the published list of capabilities.
pub mod Adapters
pub mod Application
pub mod Corpus
pub mod Events
pub mod Evidence
pub mod Prelude
pub mod Quality
pub mod Sessions
pub mod Shared
pub mod Transcript
