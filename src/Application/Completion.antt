-- ===== src/Application/Completion.antt =====
-- src/evidence_engine/application/commands/complete_session.py, over the in-memory sessions and
-- evidence. The readings of the clocks are arguments; `divide` is the division of two integers into a
-- float, and `lower` is `str.lower`.
pub mod Published
mod Tests
use oratoria_engine.Prelude.{
  ℕ, suc, String, Bool, true, false, not, Option, none, some, List, [], ◌∷◌, ◌++◌, Dict, values,
  lookup, insert, length, if◌then◌else◌,
}
use oratoria_engine.Prelude.Int.{ℤ, pos, pos_part, leb_ℤ, ◌+ℤ◌}
use oratoria_engine.Shared.Errors.{Result, ok, raised, not_authorized, session_not_found}
use oratoria_engine.Shared.Effects.{
  Action, pure, from_option, from_result, reads, writes, refuse_if, ◌>>=◌, ◌>>◌,
}
use oratoria_engine.Shared.Provenance.{Modality, SemanticVersion, audio, video, modality_eq}
use oratoria_engine.Shared.Timeline.{Interval, interval_of, default_tolerance_ms}
use oratoria_engine.Shared.Measurement.{Floats, Confidence, confidence, calibrated, measured}
use oratoria_engine.Shared.Taxonomy.{speech_value, visual_value}
use oratoria_engine.Sessions.Session.{
  AnalysisSession, request_completion, mark_completed, captured_ms,
}
use oratoria_engine.Sessions.Sequencing
use oratoria_engine.Sessions.Sequencing.{ChunkLedger, highest_seen, missing_count}
use oratoria_engine.Transcript.{Transcript}
use oratoria_engine.Quality.{QualityReport, QualityAssessment, chunk_loss_ratio, extended}
use oratoria_engine.Events.Speech
use oratoria_engine.Events.Speech.{SpeechEvent}
use oratoria_engine.Events.Visual
use oratoria_engine.Events.Visual.{VisualEvent}
use oratoria_engine.Events.Prosody.{ProsodyReading}
use oratoria_engine.Evidence.Cooccurrence.{FusionWindow, MultimodalCooccurrence}
use oratoria_engine.Evidence.Document.{
  ProvenanceManifest, EvidenceDocument, Node, Entries, Elements, leaf, mapping, sequence, no_entry,
  entry, no_element, element, provenance_manifest, assert_carries_no_ranking,
}
use oratoria_engine.Adapters.SessionStore.{SessionRepository, get, save}
use oratoria_engine.Adapters.EvidenceStore.{
  EvidenceBundle, EvidenceRepository, store, store_document,
}
use oratoria_engine.Application.Assembly.Document.{Captured, Settings, assemble}
use oratoria_engine.Application.Callers.{AuthenticatedCaller, sessions_write, allows}

-- What an `EvidenceBundle` holds besides its keys.
pub record Contents (F : Type 0) : Type 0 where
  pub transcript : Transcript (Confidence F)
  pub quality : QualityReport F
  pub speech_events : List (SpeechEvent F)
  pub visual_events : List (VisualEvent F)
  pub prosody : List (ProsodyReading F)
  pub cooccurrences : List MultimodalCooccurrence

-- The audit record of a completion, with the three counts that its text prints.
pub record CompletionRecord : Type 0 where
  pub actor : String
  pub resource : String
  pub timestamp_ms : ℕ
  pub trace_id : String
  pub tenant : String
  pub speech_events : ℕ
  pub visual_events : ℕ
  pub cooccurrences : ℕ

pub record CompletedSession (F : Type 0) : Type 0 where
  pub session : AnalysisSession
  pub document : EvidenceDocument F

-- The stores that the use case writes to, and the chunk ledgers of the stream.
pub record World (F : Type 0) : Type 0 where
  pub sessions : SessionRepository
  pub evidence : EvidenceRepository (Contents F) (EvidenceDocument F)
  pub audio_chunks : ChunkLedger
  pub video_chunks : ChunkLedger
  pub audit : List CompletionRecord

module _ (fl : Floats) (threshold : fl.F) (divide : ℕ → ℕ → fl.F) (lower : String → String) where
  -- `_loss_ratio`
  unfoldable pub loss_ratio : ℕ → ℤ → fl.F
  loss_ratio missing highest_seen =
      let expected = highest_seen +ℤ pos 1 in
      if leb_ℤ expected (pos 0) then fl.zero else divide missing (pos_part expected)

  -- The assessment of one modality's loss of chunks.
  abbrev pub loss_of : Modality → Interval → Confidence fl.F → ChunkLedger → QualityAssessment fl.F
  loss_of modality window certain l = record {
    modality = modality;
    metric = chunk_loss_ratio;
    window = window;
    value = measured (record {
      value = loss_ratio (missing_count l) (highest_seen l);
      confidence = certain;
      unit = "ratio";
    });
  }

  -- `_with_transport_quality`
  unfoldable pub with_transport_quality :
      Captured fl.F → AnalysisSession → ℕ → Action (World fl.F) (QualityReport fl.F)
  unfolding Sequencing.finalize
  with_transport_quality state session wall_ms = do
    window ←
        from_result
          (interval_of (pos 0) (pos (captured_ms session wall_ms)) (pos default_tolerance_ms))
    certain ← from_result (confidence fl fl.one calibrated)
    writes (λ w. record w { audio_chunks = Sequencing.finalize w.audio_chunks })
    writes (λ w. record w { video_chunks = Sequencing.finalize w.video_chunks })
    assessments ← reads (λ w.
        loss_of audio window certain w.audio_chunks
        ∷ (if leb_ℤ (pos 0) (highest_seen w.video_chunks)
            then loss_of video window certain w.video_chunks ∷ []
            else []))
    pure (extended state.quality assessments [])

  -- The bundle shares every content with the document.
  abbrev pub bundle_of : String → EvidenceDocument fl.F → EvidenceBundle (Contents fl.F)
  bundle_of tenant d = record {
    run_id = d.run_id;
    session_id = d.session_id;
    tenant = tenant;
    contents = record {
      transcript = d.transcript;
      quality = d.quality;
      speech_events = d.speech_events;
      visual_events = d.visual_events;
      prosody = d.prosody;
      cooccurrences = d.cooccurrences;
    };
  }

  abbrev pub completion_record : AuthenticatedCaller → ℕ → EvidenceDocument fl.F → CompletionRecord
  completion_record caller now_ms d = record {
    actor = caller.application;
    resource = d.session_id;
    timestamp_ms = now_ms;
    trace_id = caller.trace_id;
    tenant = caller.tenant;
    speech_events = length d.speech_events;
    visual_events = length d.visual_events;
    cooccurrences = length d.cooccurrences;
  }

  unfoldable pub execute :
      AuthenticatedCaller
      → String
      → Captured fl.F
      → Settings
      → ℕ
      → ℕ
      → Action (World fl.F) (CompletedSession fl.F)
  execute caller session_id state configuration wall_ms now_ms = do
    refuse_if (not (allows caller sessions_write)) not_authorized
    found ← reads (λ w. get caller.tenant session_id w.sessions)
    session ← from_option session_not_found found
    closing ← from_result (request_completion session wall_ms)
    writes (λ w. record w { sessions = save closing w.sessions })
    quality ← with_transport_quality state closing wall_ms
    document ← from_result (assemble fl threshold lower session_id state configuration quality)
    writes (λ w. record w { evidence = store (bundle_of caller.tenant document) w.evidence })
    writes
        (λ w. record w { evidence = store_document session_id document caller.tenant w.evidence })
    done ← from_result (mark_completed closing now_ms)
    writes (λ w. record w { sessions = save done w.sessions })
    writes (λ w. record w { audit = w.audit ++ completion_record caller now_ms document ∷ [] })
    pure (record { session = done; document = document })
