-- ===== src/Application/Assembly/Document.antt =====
-- src/evidence_engine/application/commands/complete_session.py: the document of a session from what
-- its stream has gathered, and the check of its payload. `lower` is `str.lower`.
use oratoria_engine.Prelude.{
  String, true, Option, none, some, List, [], ◌∷◌, Dict, values, lookup, insert,
}
use oratoria_engine.Shared.Errors.{Result, ok, each, ◌>>=◌}
use oratoria_engine.Shared.Provenance.{Modality, SemanticVersion, modality_eq}
use oratoria_engine.Shared.Measurement.{Floats, Confidence}
use oratoria_engine.Shared.Taxonomy.{speech_value, visual_value}
use oratoria_engine.Transcript.{Transcript}
use oratoria_engine.Quality.{QualityReport}
use oratoria_engine.Events.Speech
use oratoria_engine.Events.Speech.{SpeechEvent}
use oratoria_engine.Events.Visual
use oratoria_engine.Events.Visual.{VisualEvent}
use oratoria_engine.Events.Prosody.{ProsodyReading}
use oratoria_engine.Evidence.Cooccurrence.{FusionWindow}
use oratoria_engine.Evidence.Document.{
  EvidenceDocument, Node, Entries, Elements, leaf, mapping, sequence, no_entry, entry, no_element,
  element, provenance_manifest, assert_carries_no_ranking,
}
use oratoria_engine.Application.Assembly.Fusion.{fuse}

-- `StreamingState`, as far as the document holds it.
pub record Captured (F : Type 0) : Type 0 where
  pub run_id : String
  pub transcript : Transcript (Confidence F)
  pub speech_events : Dict String (SpeechEvent F)
  pub visual_events : Dict String (VisualEvent F)
  pub prosody : List (ProsodyReading F)
  pub quality : QualityReport F

-- `ConfigurationSnapshot`, as far as the document reads it.
pub record Settings : Type 0 where
  pub id : String
  pub pipeline_version : SemanticVersion
  pub schema_version : SemanticVersion
  pub taxonomy : SemanticVersion
  pub fusion_window : FusionWindow

-- `models.setdefault(modality, version)`
abbrev pub set_default :
    Modality → String → Option String → Dict Modality String → Dict Modality String
set_default modality version none models = insert modality version models
set_default modality version (some other) models = models

module _ {F : Type 0} where
  abbrev pub speech_models : List (SpeechEvent F) → Dict Modality String → Dict Modality String
  speech_models [] models = models
  speech_models (e ∷ es) models = speech_models es (
      set_default e.provenance.modality e.provenance.model_version
        (lookup e.provenance.modality models) models)

  abbrev pub visual_models : List (VisualEvent F) → Dict Modality String → Dict Modality String
  visual_models [] models = models
  visual_models (e ∷ es) models = visual_models es (
      set_default e.provenance.modality e.provenance.model_version
        (lookup e.provenance.modality models) models)

  -- `_models_used`
  unfoldable pub models_used : List (SpeechEvent F) → List (VisualEvent F) → Dict Modality String
  models_used speech visual = visual_models visual (speech_models speech [])

-- `threshold` is OPTIONAL_CLASS_MIN_CONFIDENCE
module _ (fl : Floats) (threshold : fl.F) (lower : String → String) where
  abbrev pub described : String → String → Node
  described id type = mapping (entry "id" (leaf id) (entry "type" (leaf type) no_entry))

  abbrev pub speech_elements : List (SpeechEvent fl.F) → Elements
  speech_elements [] = no_element
  speech_elements (e ∷ es) = element (described e.id (speech_value e.type)) (speech_elements es)

  abbrev pub visual_elements : List (VisualEvent fl.F) → Elements
  visual_elements [] = no_element
  visual_elements (e ∷ es) = element (described e.id (visual_value e.type)) (visual_elements es)

  abbrev pub payload : List (SpeechEvent fl.F) → List (VisualEvent fl.F) → Entries
  payload speech visual =
      entry "speech_events" (sequence (speech_elements speech))
        (entry "visual_events" (sequence (visual_elements visual)) no_entry)

  -- The document, up to the check of its payload.
  unfoldable pub assemble :
      String → Captured fl.F → Settings → QualityReport fl.F → Result (EvidenceDocument fl.F)
  assemble session_id state configuration quality = do
    speech ← each Speech.finalize (values state.speech_events)
    visual ← each (Visual.finalize fl threshold) (values state.visual_events)
    cooccurrences ← fuse speech visual configuration.fusion_window true
    manifest ← provenance_manifest (record {
      pipeline_version = configuration.pipeline_version;
      schema_version = configuration.schema_version;
      taxonomy = configuration.taxonomy;
      configuration = configuration.id;
      models = models_used speech visual;
    })
    _ ← assert_carries_no_ranking lower (payload speech visual)
    ok (record {
      session_id = session_id;
      run_id = state.run_id;
      manifest = manifest;
      transcript = state.transcript;
      quality = quality;
      speech_events = speech;
      visual_events = visual;
      prosody = state.prosody;
      cooccurrences = cooccurrences;
    })
