-- ===== src/Application/Capture/Tests.antt =====
-- A session that begins, is begun again, pauses and resumes, and the theorem there.
use oratoria_engine.Prelude.{refl, false, true, none, some, List, [], ◌∷◌}
use oratoria_engine.Sessions.State
use oratoria_engine.Sessions.State.{realtime, created}
use oratoria_engine.Sessions.Clock
use oratoria_engine.Sessions.Clock.{new_clock}
use oratoria_engine.Sessions.Consent.{ConsentReceipt, is_active}
use oratoria_engine.Sessions.Capabilities.{pcm16}
use oratoria_engine.Sessions.Session.{AnalysisSession, accepts_media}
use oratoria_engine.Sessions.Session.Steps.{IsConsistent}
use oratoria_engine.Adapters.SessionStore.{SessionRepository}
use oratoria_engine.Application.Callers.{AuthenticatedCaller, sessions_write}
use oratoria_engine.Application.Capture.Stored.{
  Request, begins, pauses, resumes, run, IsSound, run-IsSound,
}

abbrev receipt : ConsentReceipt
receipt = record {
  session_id = "s1";
  policy_version = record { major = 1; minor = 0; patch = 0 };
  retention = record {
    policy_version = record { major = 1; minor = 0; patch = 0 };
    retain_raw_media = false;
    raw_media_ttl_seconds = 0;
    retain_derived_aggregates = true;
  };
  granted_at_ms = 5;
  withdrawn_at_ms = none;
}

abbrev planned : AnalysisSession
planned = record {
  id = "s1";
  application_id = "app";
  tenant_id = "t1";
  mode = realtime;
  locale = "es-PE";
  capabilities = record {
    audio_codec = pcm16;
    sample_rate_hz = 16000;
    locale = "es-PE";
    video_format = none;
    frame_rate_fps = none;
  };
  configuration = "conf";
  created_at_ms = 5;
  state = created;
  clock = new_clock;
  consent = some receipt;
  completed_at_ms = none;
}

planned-IsConsistent : IsConsistent planned
unfolding Clock.is_running accepts_media State.same_state is_active
planned-IsConsistent = record { running = refl; gated = refl; erased = refl }

abbrev client : AuthenticatedCaller
client = record {
  application = "app";
  tenant = "t1";
  key_id = "k1";
  scopes = sessions_write ∷ [];
  trace_id = "trace";
}

abbrev on_file : SessionRepository
on_file = record { sessions = (("t1", "s1"), planned) ∷ []; idempotency = [] }

abbrev requests : List Request
requests =
    record { kind = begins; caller = client; session_id = "s1"; wall_ms = 10 }
    ∷ record { kind = begins; caller = client; session_id = "s1"; wall_ms = 20 }
    ∷ record { kind = pauses; caller = client; session_id = "s1"; wall_ms = 30 }
    ∷ record { kind = resumes; caller = client; session_id = "s1"; wall_ms = 40 }
    ∷ []

run-IsSound_example : IsSound (run on_file requests)
run-IsSound_example = run-IsSound on_file requests ((refl, planned-IsConsistent), tt)
