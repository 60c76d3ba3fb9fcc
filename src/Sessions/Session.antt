-- ===== src/Sessions/Session.antt =====
-- src/evidence_engine/domain/sessions/session.py: the session aggregate. Every transition returns
-- a new session or raises. Names and locale are texts, the configuration is its identifier.
pub mod Steps
pub mod Gate
pub mod Timing
mod Tests
use oratoria_engine.Prelude.{ℕ, String, Bool, not, Option, none, some, ◌==◌, string_eq}
use oratoria_engine.Shared.Errors.{Result, ok, raised, consent_violation, raise_if, ◌>>=◌, ◌>>◌}
use oratoria_engine.Shared.Timeline.{MonotonicTime}
use oratoria_engine.Sessions.State
use oratoria_engine.Sessions.State.{
  SessionMode, SessionState, capturing, paused, completing, completed, failed, evidence_deleted,
  require_transition,
}
use oratoria_engine.Sessions.Clock
use oratoria_engine.Sessions.Clock.{SessionClock}
use oratoria_engine.Sessions.Consent.{ConsentReceipt, require_active, withdraw}
use oratoria_engine.Sessions.Capabilities.{NegotiatedCapabilities}

pub record AnalysisSession : Type 0 where
  pub id : String
  pub application_id : String
  pub tenant_id : String
  pub mode : SessionMode
  pub locale : String
  pub capabilities : NegotiatedCapabilities
  pub configuration : String
  pub created_at_ms : ℕ
  pub state : SessionState
  pub clock : SessionClock
  pub consent : Option ConsentReceipt
  pub completed_at_ms : Option ℕ

unfoldable pub with_consent : AnalysisSession → ConsentReceipt → Result AnalysisSession
with_consent s receipt = do
  raise_if (not (receipt.session_id == s.id)) consent_violation
  ok (record s { consent = some receipt })

require_live : Option ConsentReceipt → Result ConsentReceipt
unfolding require_active
require_live none = raised consent_violation
require_live (some receipt) = do require_active receipt; ok receipt

unfoldable pub require_consent_for_media : AnalysisSession → Result ConsentReceipt
unfolding require_live
require_consent_for_media s = require_live s.consent

unfoldable pub begin_capture : AnalysisSession → ℕ → Result AnalysisSession
unfolding require_consent_for_media require_transition Clock.start
begin_capture s wall_ms = do
  _ ← require_consent_for_media s
  state ← require_transition s.state capturing
  ok (record s { state = state; clock = Clock.start s.clock wall_ms })

unfoldable pub pause_capture : AnalysisSession → ℕ → Result AnalysisSession
unfolding require_transition Clock.pause
pause_capture s wall_ms = do
  state ← require_transition s.state paused
  ok (record s { state = state; clock = Clock.pause s.clock wall_ms })

unfoldable pub resume_capture : AnalysisSession → ℕ → Result AnalysisSession
unfolding require_consent_for_media require_transition Clock.start
resume_capture s wall_ms = do
  _ ← require_consent_for_media s
  state ← require_transition s.state capturing
  ok (record s { state = state; clock = Clock.start s.clock wall_ms })

unfoldable pub request_completion : AnalysisSession → ℕ → Result AnalysisSession
unfolding require_transition Clock.pause
request_completion s wall_ms = do
  state ← require_transition s.state completing
  ok (record s { state = state; clock = Clock.pause s.clock wall_ms })

unfoldable pub mark_completed : AnalysisSession → ℕ → Result AnalysisSession
unfolding require_transition
mark_completed s wall_ms = do
  state ← require_transition s.state completed
  ok (record s { state = state; completed_at_ms = some wall_ms })

unfoldable pub fail : AnalysisSession → ℕ → Result AnalysisSession
unfolding require_transition Clock.pause
fail s wall_ms = do
  state ← require_transition s.state failed
  ok (record s {
    state = state;
    clock = Clock.pause s.clock wall_ms;
    completed_at_ms = some wall_ms;
  })

unfoldable pub withdrawn : Option ConsentReceipt → ℕ → Result (Option ConsentReceipt)
unfolding withdraw
withdrawn none wall_ms = ok none
withdrawn (some receipt) wall_ms = do receipt' ← withdraw receipt wall_ms; ok (some receipt')

unfoldable pub mark_evidence_deleted : AnalysisSession → ℕ → Result AnalysisSession
unfolding require_transition withdrawn
mark_evidence_deleted s wall_ms = do
  state ← require_transition s.state evidence_deleted
  consent ← withdrawn s.consent wall_ms
  ok (record s { state = state; consent = consent })

unfoldable pub accepts_media : AnalysisSession → Bool
unfolding State.accepts_media
accepts_media s = State.accepts_media s.state

unfoldable pub position : AnalysisSession → ℕ → MonotonicTime
unfolding Clock.now
position s wall_ms = Clock.now s.clock wall_ms

unfoldable pub captured_ms : AnalysisSession → ℕ → ℕ
unfolding Clock.captured_ms
captured_ms s wall_ms = Clock.captured_ms s.clock wall_ms
