-- ===== src/Sessions/Session/Tests.antt =====
-- A session from its creation through a pause, and the theorems at that session.
use oratoria_engine.Prelude.{ℕ, ◌+◌, ◌≡◌, refl, true, false, none, some, List, [], ◌∷◌, arith}
use oratoria_engine.Shared.Provenance.{SemanticVersion}
use oratoria_engine.Shared.Errors.{ok}
use oratoria_engine.Sessions.State
use oratoria_engine.Sessions.State.{realtime, created, capturing, paused}
use oratoria_engine.Sessions.Clock
use oratoria_engine.Sessions.Clock.{new_clock}
use oratoria_engine.Sessions.Consent.{ConsentReceipt, is_active}
use oratoria_engine.Sessions.Capabilities.{pcm16}
use oratoria_engine.Sessions.Session.{
  AnalysisSession, accepts_media, captured_ms, begin_capture, request_completion, pause_capture,
  resume_capture,
}
use oratoria_engine.Sessions.Session.Steps.{
  Op, begin, pause, resume, complete, step, IsConsistent, step-IsConsistent,
}
use oratoria_engine.Sessions.Session.Timing.{run, accepted_ms, captured_ms-run}

abbrev version : SemanticVersion
version = record { major = 1; minor = 0; patch = 0 }

abbrev receipt : ConsentReceipt
receipt = record {
  session_id = "s1";
  policy_version = version;
  retention = record {
    policy_version = version;
    retain_raw_media = false;
    raw_media_ttl_seconds = 0;
    retain_derived_aggregates = true;
  };
  granted_at_ms = 5;
  withdrawn_at_ms = none;
}

abbrev opened : AnalysisSession
opened = record {
  id = "s1";
  application_id = "app";
  tenant_id = "tenant";
  mode = realtime;
  locale = "es-PE";
  capabilities = record {
    audio_codec = pcm16;
    sample_rate_hz = 16000;
    locale = "es-PE";
    video_format = none;
    frame_rate_fps = none;
  };
  configuration = "conf";
  created_at_ms = 5;
  state = created;
  clock = new_clock;
  consent = some receipt;
  completed_at_ms = none;
}

abbrev capturing_session : AnalysisSession
capturing_session = record opened {
  state = State.capturing;
  clock = record { accumulated_ms = 0; segment_started_at = some 10 };
}

opened-IsConsistent : IsConsistent opened
unfolding Clock.is_running accepts_media State.same_state is_active
opened-IsConsistent = record { running = refl; gated = refl; erased = refl }

opened_begins : step begin opened 10 ≡ ok capturing_session
unfolding step begin_capture State.same_state is_active
opened_begins = refl

step-IsConsistent_example : IsConsistent capturing_session
step-IsConsistent_example = step-IsConsistent begin opened 10 opened_begins opened-IsConsistent

-- The second `begin` is refused; the pause from 30 to 90 is not counted.
abbrev history : List (Op × ℕ)
history = (begin, 10) ∷ (begin, 20) ∷ (pause, 30) ∷ (resume, 90) ∷ (complete, 100) ∷ []

captured_over_history : captured_ms (run history opened) 200 ≡ 30
unfolding captured_ms run step begin_capture pause_capture resume_capture request_completion
    State.same_state is_active
captured_over_history = refl

captured_ms-run_example :
    captured_ms (run history opened) 200 ≡ captured_ms opened 0 + accepted_ms history opened 0 200
captured_ms-run_example =
    captured_ms-run history opened 0 200 (record { consistent = opened-IsConsistent; began = tt })
      (omega arith)
