-- ===== src/Application/Queries/Tests.antt =====
-- A completed session with a document, read before and after its deletion.
use oratoria_engine.Prelude.{
  ℕ, ◌≡◌, ◌↔◌, refl, true, false, [], ◌∷◌, none, some, ◌==◌, lookup, string_eq,
}
use oratoria_engine.Shared.Errors.{ok, raised, result_not_ready}
use oratoria_engine.Sessions.State.{
  SessionState, completed, evidence_deleted, realtime, can_transition, state_eq, same_state,
  require_transition,
}
use oratoria_engine.Sessions.Capabilities.{opus}
use oratoria_engine.Sessions.Session.{AnalysisSession, mark_evidence_deleted}
use oratoria_engine.Adapters.SessionStore.{get}
use oratoria_engine.Adapters.EvidenceStore.{load_document}
use oratoria_engine.Application.Callers.{
  AuthenticatedCaller, evidence_delete, results_read, allows, same_scope,
}
use oratoria_engine.Application.Deletion.{Store, execute}
use oratoria_engine.Application.Queries.{read_result}
use oratoria_engine.Application.Queries.Access.{read_result_iff, deleted_is_unreadable}

abbrev eraser : AuthenticatedCaller
eraser = record {
  application = "app";
  tenant = "t1";
  key_id = "k1";
  scopes = evidence_delete ∷ [];
  trace_id = "trace";
}

abbrev reader : AuthenticatedCaller
reader = record {
  application = "dashboard";
  tenant = "t1";
  key_id = "k2";
  scopes = results_read ∷ [];
  trace_id = "trace2";
}

abbrev session : SessionState → AnalysisSession
session state = record {
  id = "s1";
  application_id = "app";
  tenant_id = "t1";
  mode = realtime;
  locale = "es-PE";
  capabilities = record {
    audio_codec = opus;
    sample_rate_hz = 16000;
    locale = "es-PE";
    video_format = none;
    frame_rate_fps = none;
  };
  configuration = "c1";
  created_at_ms = 0;
  state = state;
  clock = record { accumulated_ms = 100; segment_started_at = none };
  consent = none;
  completed_at_ms = none;
}

abbrev store : Store ℕ ℕ
store = record {
  sessions = record { sessions = (("t1", "s1"), session completed) ∷ []; idempotency = [] };
  evidence = record { bundles = []; documents = (("t1", "s1"), 9) ∷ (("t2", "s1"), 8) ∷ [] };
  media = record { objects = []; signatures = [] };
  stream_state = record { snapshots = []; leases = [] };
  audit = [];
}

may_delete : allows eraser evidence_delete ≡ true
unfolding allows same_scope
may_delete = refl

may_read : allows reader results_read ≡ true
unfolding allows same_scope
may_read = refl

on_file : get "t1" "s1" store.sessions ≡ some (session completed)
unfolding get lookup
on_file = refl

live : (completed == evidence_deleted) ≡ false
unfolding same_state
live = refl

deletable : mark_evidence_deleted (session completed) 1000 ≡ ok (session evidence_deleted)
unfolding mark_evidence_deleted require_transition can_transition same_state
deletable = refl

read_before : read_result reader "s1" store.sessions store.evidence ≡ ok 9
unfolding read_result allows same_scope get lookup load_document same_state
read_before = refl

read_result_iff_example : (read_result reader "s1" store.sessions store.evidence ≡ ok 9) ↔ (
    (allows reader results_read ≡ true)
    × ((s : AnalysisSession) × (get "t1" "s1" store.sessions ≡ some s) × (s.state ≡ completed))
    × (load_document "t1" "s1" store.evidence ≡ some 9))
read_result_iff_example = read_result_iff reader "s1" store.sessions store.evidence 9

deleted_is_unreadable_example :
    read_result reader "s1"
      (execute eraser "s1" 1000 store).1.sessions
      (execute eraser "s1" 1000 store).1.evidence
    ≡ raised result_not_ready
deleted_is_unreadable_example =
    deleted_is_unreadable eraser reader "s1" 1000 store (session completed)
      (session evidence_deleted) may_delete may_read refl (refl, tt) on_file live deletable
