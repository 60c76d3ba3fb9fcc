-- ===== src/Application/Creation/Tests.antt =====
-- Requests to create a session over empty stores, and the theorems at them.
use oratoria_engine.Prelude.{
  String, true, false, none, some, [], ◌∷◌, lookup, string_eq, pair_eq, ◌≡◌, refl,
}
use oratoria_engine.Prelude.Int.{pos}
use oratoria_engine.Shared.Errors.{ok, raised, not_authorized}
use oratoria_engine.Sessions.State.{realtime, created}
use oratoria_engine.Sessions.Clock.{new_clock}
use oratoria_engine.Sessions.Consent.{consent_receipt}
use oratoria_engine.Sessions.Capabilities.{
  pcm16, negotiate, resolve_codec, rate_is_supported, locale_is_supported, resolve_video,
}
use oratoria_engine.Sessions.Session.{AnalysisSession, with_consent}
use oratoria_engine.Adapters.SessionStore.{
  SessionRepository, get, find_by_idempotency_key, claim_idempotency_key,
}
use oratoria_engine.Adapters.Quotas.{check}
use oratoria_engine.Application.Callers.{AuthenticatedCaller, sessions_write, allows, same_scope}
use oratoria_engine.Application.Requests.{CreateSessionCommand, Readings, new_session}
use oratoria_engine.Application.Creation.{StreamGrant, World, execute, granted}
use oratoria_engine.Application.Creation.Race.{interleaved, race_makes_two}
use oratoria_engine.Application.Creation.Replay.{refused_keeps_world, retried_returns_first}

abbrev client : AuthenticatedCaller
client = record {
  application = "app";
  tenant = "t1";
  key_id = "k1";
  scopes = sessions_write ∷ [];
  trace_id = "trace";
}

abbrev stranger : AuthenticatedCaller
stranger = record client { scopes = [] }

abbrev command : CreateSessionCommand
command = record {
  mode = realtime;
  capabilities = record {
    audio_codec = "pcm16";
    sample_rate_hz = pos 16000;
    locale = "es-PE";
    video_format = none;
    frame_rate_fps = none;
  };
  consent_policy_version = record { major = 1; minor = 0; patch = 0 };
  retention = record {
    policy_version = record { major = 1; minor = 0; patch = 0 };
    retain_raw_media = false;
    raw_media_ttl_seconds = 0;
    retain_derived_aggregates = true;
  };
  idempotency_key = some "once";
}

abbrev readings : String → Readings
readings id = record {
  session_id = id;
  now_ms = 5;
  replay_ms = 8;
  quota_check_ms = 5;
  quota_consume_ms = 6;
  snapshot = "conf";
}

abbrev opened : String → AnalysisSession
opened id = record {
  id = id;
  application_id = "app";
  tenant_id = "t1";
  mode = realtime;
  locale = "es-PE";
  capabilities = record {
    audio_codec = pcm16;
    sample_rate_hz = 16000;
    locale = "es-PE";
    video_format = none;
    frame_rate_fps = none;
  };
  configuration = "conf";
  created_at_ms = 5;
  state = created;
  clock = new_clock;
  consent = some (record {
    session_id = id;
    policy_version = record { major = 1; minor = 0; patch = 0 };
    retention = command.retention;
    granted_at_ms = 5;
    withdrawn_at_ms = none;
  });
  completed_at_ms = none;
}

abbrev nothing_yet : World
nothing_yet = record {
  sessions = record { sessions = []; idempotency = [] };
  quota = record { limits = []; window_ms = 1000; counts = [] };
  frozen = [];
  audit = [];
}

abbrev mint : StreamGrant → String
mint g = g.session_id

abbrev after_first : World
after_first = (execute mint client command (readings "s1") nothing_yet).1

unclaimed : lookup ("app", "once") nothing_yet.sessions.idempotency ≡ none
unfolding lookup
unclaimed = refl

refused :
    execute mint stranger command (readings "s1") nothing_yet ≡ (raised not_authorized, nothing_yet)
unfolding execute allows
refused = refl

opened_first : new_session client command (readings "s1") ≡ ok (opened "s1")
unfolding new_session negotiate consent_receipt with_consent resolve_codec rate_is_supported
    locale_is_supported resolve_video
opened_first = refl

opened_second : new_session client command (readings "s2") ≡ ok (opened "s2")
unfolding new_session negotiate consent_receipt with_consent resolve_codec rate_is_supported
    locale_is_supported resolve_video
opened_second = refl

first :
    execute mint client command (readings "s1") nothing_yet
    ≡ (ok (granted mint client 5 false (opened "s1")), after_first)
unfolding execute allows same_scope find_by_idempotency_key lookup check negotiate resolve_codec
    rate_is_supported locale_is_supported resolve_video consent_receipt with_consent
    claim_idempotency_key
first = refl

refused_keeps_world_example : nothing_yet ≡ nothing_yet
refused_keeps_world_example =
    refused_keeps_world mint stranger command (readings "s1") nothing_yet nothing_yet not_authorized
      refused

retried_returns_first_example :
    execute mint client command (readings "s2") after_first
    ≡ (ok (granted mint client 8 true (opened "s1")), after_first)
retried_returns_first_example =
    retried_returns_first mint client command (readings "s1") "once" (readings "s2")
      (granted mint client 5 false (opened "s1")) nothing_yet after_first refl unclaimed refl first

abbrev after : SessionRepository
after = World.sessions (
    interleaved mint client command (readings "s1") (opened "s1") (readings "s2") (opened "s2")
      nothing_yet)

race_makes_two_example :
    (get "t1" "s1" after ≡ some (opened "s1")) × (get "t1" "s2" after ≡ some (opened "s2"))
race_makes_two_example =
    race_makes_two mint client command "once" (readings "s1") (readings "s2") (opened "s1")
      (opened "s2") nothing_yet refl opened_first opened_second refl unclaimed refl
