-- ===== src/Application/Completion/Tests.antt =====
-- A completion of a session without events, and the theorem at it.
use oratoria_engine.Prelude.{
  ℕ, ◌≡◌, refl, String, true, [], ◌∷◌, none, some, leb, ◌/◌, ◌*◌, lookup, string_eq, pair_eq,
}
use oratoria_engine.Prelude.Int.{◌+ℤ◌}
use oratoria_engine.Shared.Errors.{ok}
use oratoria_engine.Shared.Timeline.{interval_of}
use oratoria_engine.Shared.Provenance.{audio, same_version}
use oratoria_engine.Shared.Measurement.{Floats, calibrated, measured, confidence}
use oratoria_engine.Shared.Taxonomy.{taxonomy_version}
use oratoria_engine.Sessions.State.{
  capturing, completed, realtime, can_transition, same_state, require_transition,
}
use oratoria_engine.Sessions.Capabilities.{opus}
use oratoria_engine.Sessions.Session.{
  AnalysisSession, request_completion, mark_completed, captured_ms,
}
use oratoria_engine.Sessions.Sequencing
use oratoria_engine.Sessions.Sequencing.{new_ledger, missing_count, highest_seen}
use oratoria_engine.Quality.{chunk_loss_ratio, extended}
use oratoria_engine.Evidence.Document.{
  EvidenceDocument, provenance_manifest, assert_carries_no_ranking,
}
use oratoria_engine.Adapters.SessionStore.{get}
use oratoria_engine.Application.Callers.{
  AuthenticatedCaller, sessions_write, results_read, allows, same_scope,
}
use oratoria_engine.Application.Assembly.Document.{Captured, Settings, assemble, models_used}
use oratoria_engine.Application.Assembly.Fusion.{fuse}
use oratoria_engine.Application.Queries.{read_result}
use oratoria_engine.Application.Completion.{
  World, CompletedSession, execute, with_transport_quality, loss_ratio,
}
use oratoria_engine.Application.Completion.Published.{completed_is_readable}

-- Floats as thousandths.
abbrev milli : Floats
milli = record { F = ℕ; le = leb; zero = 0; one = 1000 }

abbrev ratio : ℕ → ℕ → ℕ
ratio n m = n * 1000 / m

abbrev as_is : String → String
as_is s = s

abbrev client : AuthenticatedCaller
client = record {
  application = "app";
  tenant = "t1";
  key_id = "k1";
  scopes = sessions_write ∷ results_read ∷ [];
  trace_id = "trace";
}

abbrev started : AnalysisSession
started = record {
  id = "s1";
  application_id = "app";
  tenant_id = "t1";
  mode = realtime;
  locale = "es-PE";
  capabilities = record {
    audio_codec = opus;
    sample_rate_hz = 16000;
    locale = "es-PE";
    video_format = none;
    frame_rate_fps = none;
  };
  configuration = "c1";
  created_at_ms = 0;
  state = capturing;
  clock = record { accumulated_ms = 100; segment_started_at = none };
  consent = none;
  completed_at_ms = none;
}

abbrev closed : AnalysisSession
closed = record started { state = completed; completed_at_ms = some 900 }

abbrev gathered : Captured ℕ
gathered = record {
  run_id = "r1";
  transcript = record { tokens = [] };
  speech_events = [];
  visual_events = [];
  prosody = [];
  quality = record { assessments = []; availability = [] };
}

abbrev settings : Settings
settings = record {
  id = "c1";
  pipeline_version = record { major = 1; minor = 0; patch = 0 };
  schema_version = record { major = 1; minor = 0; patch = 0 };
  taxonomy = taxonomy_version;
  fusion_window = record { width_ms = 500; configuration = "c1" };
}

abbrev before : World ℕ
before = record {
  sessions = record { sessions = (("t1", "s1"), started) ∷ []; idempotency = [] };
  evidence = record { bundles = []; documents = [] };
  audio_chunks = new_ledger;
  video_chunks = new_ledger;
  audit = [];
}

abbrev document : EvidenceDocument ℕ
document = record {
  session_id = "s1";
  run_id = "r1";
  manifest = record {
    pipeline_version = settings.pipeline_version;
    schema_version = settings.schema_version;
    taxonomy = taxonomy_version;
    configuration = "c1";
    models = [];
  };
  transcript = gathered.transcript;
  quality = record {
    assessments =
        record {
          modality = audio;
          metric = chunk_loss_ratio;
          window = record {
            start = record { ms = 0 };
            end = record { ms = 100 };
            tolerance_ms = 250;
          };
          value = measured (record {
            value = 0;
            confidence = record { value = 1000; state = calibrated };
            unit = "ratio";
          });
        }
        ∷ [];
    availability = [];
  };
  speech_events = [];
  visual_events = [];
  prosody = [];
  cooccurrences = [];
}

abbrev done : CompletedSession ℕ
done = record { session = closed; document = document }

abbrev after : World ℕ
after = (execute milli 750 ratio as_is client "s1" gathered settings 800 900 before).1

may_read : allows client results_read ≡ true
unfolding allows same_scope
may_read = refl

completes :
    execute milli 750 ratio as_is client "s1" gathered settings 800 900 before ≡ (ok done, after)
unfolding execute allows same_scope get lookup request_completion with_transport_quality interval_of
    captured_ms confidence assemble fuse provenance_manifest same_version taxonomy_version
    assert_carries_no_ranking mark_completed loss_ratio missing_count highest_seen
    require_transition can_transition same_state extended Sequencing.finalize models_used ◌+ℤ◌
completes = refl

completed_is_readable_example :
    (read_result client "s1" after.sessions after.evidence ≡ ok document)
    × (get "t1" "s1" after.sessions ≡ some closed)
    × (completed ≡ completed)
completed_is_readable_example =
    completed_is_readable milli 750 ratio as_is client "s1" gathered settings 800 900 before after
      done client may_read refl (refl, tt) completes
