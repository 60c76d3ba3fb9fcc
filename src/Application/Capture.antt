-- ===== src/Application/Capture.antt =====
-- src/evidence_engine/application/commands/capture_control.py, over the in-memory sessions. The
-- reading of the clock is an argument.
pub mod Stored
mod Tests
use oratoria_engine.Prelude.{ℕ, String, Bool, not, Option}
use oratoria_engine.Shared.Errors.{not_authorized, session_not_found}
use oratoria_engine.Shared.Effects.{
  Action, pure, from_option, from_result, reads, writes, refuse_if, ◌>>=◌, ◌>>◌,
}
use oratoria_engine.Sessions.Session.{AnalysisSession, begin_capture, pause_capture, resume_capture}
use oratoria_engine.Adapters.SessionStore.{SessionRepository, get, save}
use oratoria_engine.Application.Callers.{AuthenticatedCaller, sessions_write, allows}

-- `_resolve`
unfoldable pub resolve : AuthenticatedCaller → String → Action SessionRepository AnalysisSession
resolve caller session_id = do
  refuse_if (not (allows caller sessions_write)) not_authorized
  found ← reads (get caller.tenant session_id)
  from_option session_not_found found

unfoldable pub begin : AuthenticatedCaller → String → ℕ → Action SessionRepository AnalysisSession
begin caller session_id wall_ms = do
  session ← resolve caller session_id
  updated ← from_result (begin_capture session wall_ms)
  writes (save updated)
  pure updated

unfoldable pub pause : AuthenticatedCaller → String → ℕ → Action SessionRepository AnalysisSession
pause caller session_id wall_ms = do
  session ← resolve caller session_id
  updated ← from_result (pause_capture session wall_ms)
  writes (save updated)
  pure updated

unfoldable pub resume : AuthenticatedCaller → String → ℕ → Action SessionRepository AnalysisSession
resume caller session_id wall_ms = do
  session ← resolve caller session_id
  updated ← from_result (resume_capture session wall_ms)
  writes (save updated)
  pure updated
