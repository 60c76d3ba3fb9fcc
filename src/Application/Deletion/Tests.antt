-- ===== src/Application/Deletion/Tests.antt =====
-- One session with an object, a bundle, a document, a signature and a lease, and the theorems at it.
use oratoria_engine.Prelude.{
  ℕ, ◌≡◌, ◌≢◌, refl, Option, String, true, false, [], ◌∷◌, ◌++◌, none, some, ◌==◌, arith, lookup,
  string_eq,
}
use oratoria_engine.Shared.Errors.{ok, raised, illegal_session_transition}
use oratoria_engine.Sessions.State.{
  SessionState, capturing, completed, evidence_deleted, realtime, can_transition, state_eq,
  same_state, require_transition,
}
use oratoria_engine.Sessions.Capabilities.{opus}
use oratoria_engine.Sessions.Consent.{ConsentReceipt}
use oratoria_engine.Sessions.Session.{AnalysisSession, mark_evidence_deleted}
use oratoria_engine.Adapters.Media.{raw_media}
use oratoria_engine.Adapters.SessionStore.{get}
use oratoria_engine.Application.Callers.{AuthenticatedCaller, evidence_delete, allows, same_scope}
use oratoria_engine.Application.Deletion.{Store, DeletionReceipt, execute, verify, deletion_record}
use oratoria_engine.Application.Deletion.Erased.{IsErased}
use oratoria_engine.Application.Deletion.Promise.{execute-IsErased}
use oratoria_engine.Application.Deletion.Isolation.{
  Spares, IsUntouched, execute_refused, execute-Spares,
}

abbrev caller : AuthenticatedCaller
caller = record {
  application = "app";
  tenant = "t1";
  key_id = "k1";
  scopes = evidence_delete ∷ [];
  trace_id = "trace";
}

-- The policy lets derived aggregates be kept.
abbrev consented : Option ℕ → ConsentReceipt
consented withdrawn_at_ms = record {
  session_id = "s1";
  policy_version = record { major = 1; minor = 0; patch = 0 };
  retention = record {
    policy_version = record { major = 1; minor = 0; patch = 0 };
    retain_raw_media = false;
    raw_media_ttl_seconds = 0;
    retain_derived_aggregates = true;
  };
  granted_at_ms = 0;
  withdrawn_at_ms = withdrawn_at_ms;
}

abbrev session : SessionState → Option ℕ → AnalysisSession
session state withdrawn_at_ms = record {
  id = "s1";
  application_id = "app";
  tenant_id = "t1";
  mode = realtime;
  locale = "es-PE";
  capabilities = record {
    audio_codec = opus;
    sample_rate_hz = 16000;
    locale = "es-PE";
    video_format = none;
    frame_rate_fps = none;
  };
  configuration = "c1";
  created_at_ms = 0;
  state = state;
  clock = record { accumulated_ms = 100; segment_started_at = none };
  consent = some (consented withdrawn_at_ms);
  completed_at_ms = none;
}

abbrev store : SessionState → Store ℕ ℕ
store state = record {
  sessions = record { sessions = (("t1", "s1"), session state none) ∷ []; idempotency = [] };
  evidence = record {
    bundles =
        (("t1", "r1"), record { run_id = "r1"; session_id = "s1"; tenant = "t1"; contents = 7 })
        ∷ [];
    documents = (("t1", "s1"), 9) ∷ (("t2", "s1"), 8) ∷ [];
  };
  media = record {
    objects =
        (
          ("t1", "audio:s1:ab"),
          record {
            stored = record {
              ref = "audio:s1:ab";
              tenant = "t1";
              session_id = "s1";
              kind = raw_media;
              size_bytes = 2;
              content_type = "audio/ogg";
              expires_at_ms = 90000;
            };
            payload = 1 ∷ 2 ∷ [];
          },
        )
        ∷ [];
    signatures = ("s1", "sig" ∷ []) ∷ [];
  };
  stream_state = record { snapshots = []; leases = ("s1", 500) ∷ [] };
  audit = [];
}

scoped : allows caller evidence_delete ≡ true
unfolding allows same_scope
scoped = refl

on_file : (state : SessionState) → get "t1" "s1" (store state).sessions ≡ some (session state none)
unfolding get lookup
on_file state = refl

live : (completed == evidence_deleted) ≡ false
unfolding same_state
live = refl

capturing_is_live : (capturing == evidence_deleted) ≡ false
unfolding same_state
capturing_is_live = refl

deletable :
    mark_evidence_deleted (session completed none) 1000 ≡ ok (session evidence_deleted (some 1000))
unfolding mark_evidence_deleted require_transition can_transition same_state
deletable = refl

not_deletable : can_transition capturing evidence_deleted ≡ false
unfolding can_transition same_state
not_deletable = refl

execute-IsErased_example :
    (r : DeletionReceipt) × (w : Store ℕ ℕ) × (execute caller "s1" 1000 (store completed)
      ≡ (ok r, w))
    × IsErased "t1" "s1" w
    × ((later : ℕ) → verify caller "s1" later w ≡ (ok true, w))
    × (get "t1" "s1" w.sessions ≡ some (session evidence_deleted (some 1000)))
    × (w.audit
        ≡ []
          ++ deletion_record caller "s1" 1000 r.media_objects_deleted r.evidence_records_deleted
            ∷ [])
execute-IsErased_example =
    execute-IsErased caller "s1" 1000 (store completed) (session completed none)
      (session evidence_deleted (some 1000)) scoped (refl, tt) (on_file completed) live deletable

execute_refused_example :
    (w : Store ℕ ℕ) × (execute caller "s1" 1000 (store capturing)
      ≡ (raised illegal_session_transition, w))
    × IsErased "t1" "s1" w
    × (w.sessions ≡ (store capturing).sessions)
    × (w.audit ≡ [])
execute_refused_example =
    execute_refused caller "s1" 1000 (store capturing) (session capturing none) scoped
      (on_file capturing) capturing_is_live not_deletable

abbrev second : String
second = "t2"

other_tenant : second ≢ caller.tenant
other_tenant = λ e. ground (arith, (string_eq.beq_iff second caller.tenant).1 e)

execute-Spares_example :
    Spares second (store completed) (execute caller "s1" 1000 (store completed)).1
    × ((id : String)
        → id ≢ "s1"
        → IsUntouched id (store completed) (execute caller "s1" 1000 (store completed)).1)
execute-Spares_example =
    execute-Spares caller "s1" 1000 (store completed) second other_tenant (refl, tt)
