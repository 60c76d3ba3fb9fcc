-- ===== src/Application/Queries.antt =====
-- src/evidence_engine/application/queries/read_session.py: the status of a session and its document,
-- over the in-memory stores. A query writes nothing, so that it takes the stores and returns no store.
pub mod Access
mod Tests
use oratoria_engine.Prelude.{String, Bool, not, Option, none, some, ◌==◌}
use oratoria_engine.Shared.Errors.{
  Error, Result, ok, raised, raise_if, not_authorized, session_not_found, result_not_ready, ◌>>=◌,
  ◌>>◌,
}
use oratoria_engine.Sessions.State.{completed, evidence_deleted, state_eq}
use oratoria_engine.Sessions.Session.{AnalysisSession}
use oratoria_engine.Adapters.SessionStore.{SessionRepository, get}
use oratoria_engine.Adapters.EvidenceStore.{EvidenceRepository, load_document}
use oratoria_engine.Application.Callers.{AuthenticatedCaller, sessions_read, results_read, allows}

abbrev pub or_raise {ℓ} : {A : Type ℓ} → Error → Option A → Result A
or_raise e none = raised e
or_raise e (some a) = ok a

-- `ReadSession.execute`
unfoldable pub read_session :
    AuthenticatedCaller → String → SessionRepository → Result AnalysisSession
read_session caller session_id sessions = do
  raise_if (not (allows caller sessions_read)) not_authorized
  or_raise session_not_found (get caller.tenant session_id sessions)

-- `ReadResult.execute`
unfoldable pub read_result :
    {B D : Type 0}
    → AuthenticatedCaller
    → String
    → SessionRepository
    → EvidenceRepository B D
    → Result D
read_result caller session_id sessions evidence = do
  raise_if (not (allows caller results_read)) not_authorized
  session ← or_raise session_not_found (get caller.tenant session_id sessions)
  raise_if (session.state == evidence_deleted) result_not_ready
  raise_if (not (session.state == completed)) result_not_ready
  or_raise result_not_ready (load_document caller.tenant session_id evidence)
