-- ===== src/Shared/Taxonomy/Tests.antt =====
-- Runs of the theorems on the classes and labels.
use oratoria_engine.Prelude.{◌≡◌, ◌↔◌, refl}
use oratoria_engine.Shared.Errors.{ok}
use oratoria_engine.Shared.Taxonomy.{
  SpeechEventType, VisualEventType, speech_event_types, speech_value, visual_value,
}
use oratoria_engine.Shared.Taxonomy.Labels.{
  require_known_speech_event, require_known_visual_event, require_known_iff, p0_speech_events,
}

every_speech_event_is_p0 : p0_speech_events ≡ speech_event_types
unfolding p0_speech_events
every_speech_event_is_p0 = refl

require_known_iff_example :
    ((t : SpeechEventType)
      → (require_known_speech_event "cut_off" ≡ ok t) ↔ (speech_value t ≡ "cut_off"))
    × ((t : VisualEventType)
        → (require_known_visual_event "cut_off" ≡ ok t) ↔ (visual_value t ≡ "cut_off"))
require_known_iff_example = require_known_iff "cut_off"
