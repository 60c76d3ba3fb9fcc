-- ===== src/Sessions/Session/Gate.antt =====
-- The gate in front of protected media: when capture may begin or resume.
use oratoria_engine.Prelude.{ℕ, ◌≡◌, not, ◌||◌, ◌==◌, if◌then◌else◌, arith}
use oratoria_engine.Shared.Errors.{
  Result, ok, raised, consent_violation, illegal_session_transition,
}
use oratoria_engine.Sessions.State.{state_eq, same_state, created, capturing, paused}
use oratoria_engine.Sessions.Clock
use oratoria_engine.Sessions.Consent.{is_active}
use oratoria_engine.Sessions.Session.{AnalysisSession, begin_capture, resume_capture}
use oratoria_engine.Sessions.Session.Steps.{has_live_consent}

module _ (s : AnalysisSession) (w : ℕ) where
  -- What the gate answers, from the consent and the state alone.
  abbrev pub gate : Result AnalysisSession
  gate =
      if not (has_live_consent s.consent)
      then raised consent_violation
      else if (s.state == created) || (s.state == paused)
      then ok (record s { state = capturing; clock = Clock.start s.clock w })
      else raised illegal_session_transition

  -- `begin_capture` and `resume_capture` do the same. They raise `ConsentViolation` whatever the
  -- state if no consent is live; with live consent they succeed from `CREATED` and `PAUSED`, into
  -- `CAPTURING` with the clock started, and from every other state raise
  -- `IllegalSessionTransition`.
  pub capture_gate : (begin_capture s w ≡ gate) × (resume_capture s w ≡ gate)
  unfolding begin_capture resume_capture is_active same_state
  capture_gate = (ground arith, ground arith)
