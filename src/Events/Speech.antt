-- ===== src/Events/Speech.antt =====
-- src/evidence_engine/domain/speech_events/events.py: an observation about how something was said.
use oratoria_engine.Prelude.{
  String, Bool, true, false, not, ◌&&◌, Option, none, some, is_blank, if◌then◌else◌,
}
use oratoria_engine.Shared.Errors.{Result, ok, speech_event_violation, raise_if, ◌>>◌}
use oratoria_engine.Shared.Provenance.{Provenance, same_modality, audio}
use oratoria_engine.Shared.Timeline.{Interval}
use oratoria_engine.Shared.Measurement.{Confidence}
use oratoria_engine.Shared.Taxonomy.{
  ContextualRole, DetectionBasis, SpeechEventType, cut_off, discourse_marker, false_start,
  filled_pause, filler, lexical_filler, prolongation, repetition, self_repair, semantic,
  silent_pause, uncertain, unintelligible,
}
use oratoria_engine.Shared.Taxonomy.Definitions.{speech_definition}

-- Membership of `_LEXICAL_CLASSES`
unfoldable pub is_lexical : SpeechEventType → Bool
is_lexical filled_pause = false
is_lexical lexical_filler = true
is_lexical repetition = true
is_lexical false_start = true
is_lexical self_repair = true
is_lexical cut_off = false
is_lexical prolongation = false
is_lexical silent_pause = false
is_lexical unintelligible = false

-- Membership of `_DISFLUENT_CLASSES`
unfoldable pub is_disfluent : SpeechEventType → Bool
is_disfluent filled_pause = true
is_disfluent lexical_filler = true
is_disfluent repetition = true
is_disfluent false_start = true
is_disfluent self_repair = true
is_disfluent cut_off = true
is_disfluent prolongation = true
is_disfluent silent_pause = false
is_disfluent unintelligible = false

pub record SpeechEvent (F : Type 0) : Type 0 where
  pub id : String
  pub type : SpeechEventType
  pub interval : Interval
  pub confidence : Confidence F
  pub provenance : Provenance
  pub raw_text : String
  pub context_role : Option ContextualRole
  pub is_final : Bool

abbrev pub is_none : Option ContextualRole → Bool
is_none none = true
is_none (some r) = false

-- `role is ContextualRole.FILLER`
abbrev pub is_filler : Option ContextualRole → Bool
is_filler none = false
is_filler (some filler) = true
is_filler (some semantic) = false
is_filler (some discourse_marker) = false
is_filler (some uncertain) = false

module _ {F : Type 0} where
  unfoldable pub require_audio_modality : SpeechEvent F → Result (Unit {0})
  require_audio_modality e =
      raise_if (not (same_modality e.provenance.modality audio)) speech_event_violation

  unfoldable pub require_lexical_fields : SpeechEvent F → Result (Unit {0})
  require_lexical_fields e = if not (is_lexical e.type) then ok tt else do
    raise_if (is_blank e.raw_text) speech_event_violation
    raise_if (is_none e.context_role) speech_event_violation

  unfoldable pub require_no_role_on_acoustic_classes : SpeechEvent F → Result (Unit {0})
  require_no_role_on_acoustic_classes e =
      raise_if (not (is_lexical e.type) && not (is_none e.context_role)) speech_event_violation

  -- `SpeechEvent(...)`: the event whose fields are given, checked by `__post_init__`
  unfoldable pub speech_event : SpeechEvent F → Result (SpeechEvent F)
  unfolding require_audio_modality require_lexical_fields require_no_role_on_acoustic_classes
      is_lexical
  speech_event e = do
    require_audio_modality e
    require_lexical_fields e
    require_no_role_on_acoustic_classes e
    ok e

  unfoldable pub counts_as_disfluency : SpeechEvent F → Bool
  counts_as_disfluency e =
      if not (is_disfluent e.type)
      then false
      else if is_lexical e.type
      then is_filler e.context_role
      else true

  unfoldable pub basis : SpeechEvent F → DetectionBasis
  basis e = (speech_definition e.type).basis

  unfoldable pub finalize : SpeechEvent F → Result (SpeechEvent F)
  finalize e = if e.is_final then ok e else speech_event (record e { is_final = true })
