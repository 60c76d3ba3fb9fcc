-- ===== src/Application/Requests.antt =====
-- src/evidence_engine/application/commands/create_session.py: what a request asks for, and the session
-- that it would open.
use oratoria_engine.Prelude.{ℕ, String, Option, none}
use oratoria_engine.Prelude.Int.{pos}
use oratoria_engine.Shared.Errors.{Result, ◌>>=◌}
use oratoria_engine.Shared.Provenance.{SemanticVersion}
use oratoria_engine.Sessions.State.{SessionMode, created}
use oratoria_engine.Sessions.Clock.{new_clock}
use oratoria_engine.Sessions.Consent.{RetentionPolicy, consent_receipt}
use oratoria_engine.Sessions.Capabilities.{CapabilityRequest, negotiate}
use oratoria_engine.Sessions.Session.{AnalysisSession, with_consent}
use oratoria_engine.Application.Callers.{AuthenticatedCaller}

pub record CreateSessionCommand : Type 0 where
  pub mode : SessionMode
  pub capabilities : CapabilityRequest
  pub consent_policy_version : SemanticVersion
  pub retention : RetentionPolicy
  pub idempotency_key : Option String

-- What one request reads from outside: the identifier it generates, the clocks, the snapshot.
-- `replay_ms` is read where a replay has found a session, which is at most once.
pub record Readings : Type 0 where
  pub session_id : String
  pub now_ms : ℕ
  pub replay_ms : ℕ
  pub quota_check_ms : ℕ
  pub quota_consume_ms : ℕ
  pub snapshot : String

-- The session of the request, with its consent.
unfoldable pub new_session :
    AuthenticatedCaller → CreateSessionCommand → Readings → Result AnalysisSession
new_session caller command rd = do
  capabilities ← negotiate command.capabilities
  receipt ←
      consent_receipt rd.session_id command.consent_policy_version command.retention (pos rd.now_ms)
        none
  with_consent
      (record {
        id = rd.session_id;
        application_id = caller.application;
        tenant_id = caller.tenant;
        mode = command.mode;
        locale = capabilities.locale;
        capabilities = capabilities;
        configuration = rd.snapshot;
        created_at_ms = rd.now_ms;
        state = created;
        clock = new_clock;
        consent = none;
        completed_at_ms = none;
      })
      receipt
