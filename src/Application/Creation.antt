-- ===== src/Application/Creation.antt =====
-- src/evidence_engine/application/commands/create_session.py, over the in-memory sessions and quotas.
-- The identifier that is generated, the readings of the clocks and the current configuration are
-- arguments; the signing of a stream token, `mint`, is a parameter that does not raise, as the minter of
-- persistence/tokens.py does not.
pub mod Replay
pub mod Race
mod Tests
use oratoria_engine.Prelude.{
  ℕ, ◌+◌, String, Bool, true, false, not, Option, none, some, List, [], ◌∷◌, ◌++◌, if◌then◌else◌,
}
use oratoria_engine.Prelude.Int.{pos}
use oratoria_engine.Shared.Errors.{Result, ok, not_authorized, quota_exceeded}
use oratoria_engine.Shared.Effects.{
  Action, pure, from_result, reads, writes, changes, refuse_if, ◌>>=◌, ◌>>◌,
}
use oratoria_engine.Shared.Provenance.{SemanticVersion}
use oratoria_engine.Sessions.State.{SessionMode, created}
use oratoria_engine.Sessions.Clock.{new_clock}
use oratoria_engine.Sessions.Consent.{RetentionPolicy, consent_receipt}
use oratoria_engine.Sessions.Capabilities.{CapabilityRequest, NegotiatedCapabilities, negotiate}
use oratoria_engine.Sessions.Session.{AnalysisSession, with_consent}
use oratoria_engine.Adapters.SessionStore.{
  SessionRepository, save, find_by_idempotency_key, claim_idempotency_key,
}
use oratoria_engine.Adapters.Quotas.{QuotaGuard, check, consume}
use oratoria_engine.Application.Requests.{CreateSessionCommand, Readings, new_session}
use oratoria_engine.Application.Callers.{AuthenticatedCaller, sessions_write, allows}

abbrev pub stream_token_ttl_ms : ℕ
stream_token_ttl_ms = 300000

pub record CreatedSession : Type 0 where
  pub session : AnalysisSession
  pub stream_token : String
  pub stream_token_expires_at_ms : ℕ
  pub was_existing : Bool

-- `StreamGrant`; its scopes are always those of streaming
pub record StreamGrant : Type 0 where
  pub session_id : String
  pub tenant : String
  pub application : String
  pub key_id : String
  pub expires_at_ms : ℕ

-- The audit record of a creation.
pub record CreationRecord : Type 0 where
  pub actor : String
  pub resource : String
  pub timestamp_ms : ℕ
  pub trace_id : String
  pub tenant : String
  pub mode : SessionMode
  pub locale : String

-- The stores that the use case writes to.
pub record World : Type 0 where
  pub sessions : SessionRepository
  pub quota : QuotaGuard
  pub frozen : List (String × String)
  pub audit : List CreationRecord

module _ (mint : StreamGrant → String) where
  -- `_mint_grant`
  unfoldable pub mint_grant : AuthenticatedCaller → String → ℕ → String × ℕ
  mint_grant caller session_id now_ms = (
    mint (record {
      session_id = session_id;
      tenant = caller.tenant;
      application = caller.application;
      key_id = caller.key_id;
      expires_at_ms = now_ms + stream_token_ttl_ms;
    }),
    now_ms + stream_token_ttl_ms,
  )

  abbrev pub granted : AuthenticatedCaller → ℕ → Bool → AnalysisSession → CreatedSession
  granted caller now_ms was_existing session =
      let (token, expires_at_ms) = mint_grant caller session.id now_ms in
      record {
        session = session;
        stream_token = token;
        stream_token_expires_at_ms = expires_at_ms;
        was_existing = was_existing;
      }

  abbrev pub replayed : AuthenticatedCaller → ℕ → Option AnalysisSession → Option CreatedSession
  replayed caller now_ms none = none
  replayed caller now_ms (some found) = some (granted caller now_ms true found)

  abbrev pub replay_key :
      AuthenticatedCaller → ℕ → Option String → SessionRepository → Option CreatedSession
  replay_key caller now_ms none r = none
  replay_key caller now_ms (some key) r =
      replayed caller now_ms (find_by_idempotency_key caller.application key r)

  -- `_replay`
  unfoldable pub replay :
      AuthenticatedCaller → CreateSessionCommand → ℕ → World → Option CreatedSession
  unfolding mint_grant
  replay caller command now_ms w = replay_key caller now_ms command.idempotency_key w.sessions

  abbrev pub claim_key : AuthenticatedCaller → String → Option String → Action World Bool
  claim_key caller session_id none = pure true
  claim_key caller session_id (some key) = changes (λ w.
      let (claimed, sessions) =
        claim_idempotency_key caller.application key session_id w.sessions in
      (claimed, record w { sessions = sessions }))

  -- The claim of the key, and the session of another request where that one has it.
  unfoldable pub claim_step :
      AuthenticatedCaller → CreateSessionCommand → Readings → Action World (Option CreatedSession)
  unfolding replay
  claim_step caller command rd = do
    claimed ← claim_key caller rd.session_id command.idempotency_key
    reads (λ w. if claimed then none else replay caller command rd.replay_ms w)

  -- What follows the claim.
  unfoldable pub finish_step :
      AuthenticatedCaller
      → CreateSessionCommand
      → Readings
      → AnalysisSession
      → Action World CreatedSession
  unfolding mint_grant
  finish_step caller command rd session = do
    writes (λ w. record w { sessions = save session w.sessions })
    writes (λ w. record w { frozen = w.frozen ++ (rd.snapshot, rd.session_id) ∷ [] })
    writes (λ w. record w {
      audit =
          w.audit
          ++ record {
            actor = caller.application;
            resource = rd.session_id;
            timestamp_ms = rd.now_ms;
            trace_id = caller.trace_id;
            tenant = caller.tenant;
            mode = command.mode;
            locale = session.locale;
          }
            ∷ [];
    })
    writes (λ w. record w {
      quota = consume rd.quota_consume_ms caller.application "sessions" 1 w.quota;
    })
    pure (granted caller rd.now_ms false session)

  abbrev pub or_finish :
      AuthenticatedCaller
      → CreateSessionCommand
      → Readings
      → AnalysisSession
      → Option CreatedSession
      → Action World CreatedSession
  or_finish caller command rd session none = finish_step caller command rd session
  or_finish caller command rd session (some r) = pure r

  abbrev pub create_new :
      AuthenticatedCaller
      → CreateSessionCommand
      → Readings
      → Option CreatedSession
      → Action World CreatedSession
  create_new caller command rd (some existing) = pure existing
  create_new caller command rd none = do
    decision ← reads (λ w. check rd.quota_check_ms caller.application "sessions" 1 w.quota)
    refuse_if (not decision.allowed) quota_exceeded
    session ← from_result (new_session caller command rd)
    other ← claim_step caller command rd
    or_finish caller command rd session other

  unfoldable pub execute :
      AuthenticatedCaller → CreateSessionCommand → Readings → Action World CreatedSession
  unfolding replay new_session claim_step finish_step
  execute caller command rd = do
    refuse_if (not (allows caller sessions_write)) not_authorized
    existing ← reads (replay caller command rd.replay_ms)
    create_new caller command rd existing
