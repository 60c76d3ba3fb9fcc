-- ===== src/Shared/Taxonomy.antt =====
-- src/evidence_engine/domain/shared/taxonomy.py: the published classes, the text that stands for
-- each and the row that documents it. A row's texts are the Spanish texts of the source.
pub mod Definitions
pub mod Labels
mod Tests
use oratoria_engine.Prelude.{String, List, [], ◌∷◌}
use oratoria_engine.Shared.Provenance.{Modality, SemanticVersion, audio, video}

unfoldable pub taxonomy_version : SemanticVersion
taxonomy_version = record { major = 1; minor = 0; patch = 0 }

pub data EventPriority : Type 0 where
  p0 p1 : EventPriority

pub data DetectionBasis : Type 0 where
  acoustic lexical lexical_contextual temporal geometric : DetectionBasis

pub data SpeechEventType : Type 0 where
  filled_pause lexical_filler repetition false_start self_repair cut_off : SpeechEventType
  prolongation silent_pause unintelligible : SpeechEventType

pub data ContextualRole : Type 0 where
  filler semantic discourse_marker uncertain : ContextualRole

pub data VisualEventType : Type 0 where
  gaze_toward_camera gaze_away_from_camera face_visibility_loss : VisualEventType
  insufficient_lighting insufficient_framing posture_deviation : VisualEventType
  repetitive_torso_movement self_touch repetitive_hand_movement : VisualEventType

pub data ProsodicIndicator : Type 0 where
  mean_intensity_db pitch_mean_hz pitch_stability speaking_rate_wpm : ProsodicIndicator
  articulation_rate_sps mean_pause_duration_ms voiced_ratio : ProsodicIndicator

-- `SpeechEventType` as its text
unfoldable pub speech_value : SpeechEventType → String
speech_value filled_pause = "filled_pause"
speech_value lexical_filler = "lexical_filler"
speech_value repetition = "repetition"
speech_value false_start = "false_start"
speech_value self_repair = "self_repair"
speech_value cut_off = "cut_off"
speech_value prolongation = "prolongation"
speech_value silent_pause = "silent_pause"
speech_value unintelligible = "unintelligible"

-- `ContextualRole` as its text
unfoldable pub role_value : ContextualRole → String
role_value filler = "filler"
role_value semantic = "semantic"
role_value discourse_marker = "discourse_marker"
role_value uncertain = "uncertain"

-- `VisualEventType` as its text
unfoldable pub visual_value : VisualEventType → String
visual_value gaze_toward_camera = "gaze_toward_camera"
visual_value gaze_away_from_camera = "gaze_away_from_camera"
visual_value face_visibility_loss = "face_visibility_loss"
visual_value insufficient_lighting = "insufficient_lighting"
visual_value insufficient_framing = "insufficient_framing"
visual_value posture_deviation = "posture_deviation"
visual_value repetitive_torso_movement = "repetitive_torso_movement"
visual_value self_touch = "self_touch"
visual_value repetitive_hand_movement = "repetitive_hand_movement"

-- `ProsodicIndicator` as its text
unfoldable pub indicator_value : ProsodicIndicator → String
indicator_value mean_intensity_db = "mean_intensity_db"
indicator_value pitch_mean_hz = "pitch_mean_hz"
indicator_value pitch_stability = "pitch_stability"
indicator_value speaking_rate_wpm = "speaking_rate_wpm"
indicator_value articulation_rate_sps = "articulation_rate_sps"
indicator_value mean_pause_duration_ms = "mean_pause_duration_ms"
indicator_value voiced_ratio = "voiced_ratio"

pub record EventDefinition : Type 0 where
  pub identifier : String
  pub modality : Modality
  pub priority : EventPriority
  pub basis : DetectionBasis
  pub display_name_es : String
  pub definition_es : String
  pub positive_example_es : String
  pub negative_examples_es : List String

-- The members in the order of the source, as iterating over the class yields them.
abbrev pub speech_event_types : List SpeechEventType
speech_event_types =
    filled_pause ∷ lexical_filler ∷ repetition ∷ false_start ∷ self_repair ∷ cut_off ∷ prolongation
    ∷ silent_pause ∷ unintelligible ∷ []

abbrev pub visual_event_types : List VisualEventType
visual_event_types =
    gaze_toward_camera ∷ gaze_away_from_camera ∷ face_visibility_loss ∷ insufficient_lighting
    ∷ insufficient_framing ∷ posture_deviation ∷ repetitive_torso_movement ∷ self_touch
    ∷ repetitive_hand_movement ∷ []
