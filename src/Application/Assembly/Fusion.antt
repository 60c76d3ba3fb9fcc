-- ===== src/Application/Assembly/Fusion.antt =====
-- src/evidence_engine/application/services/fusion.py: the co-occurrences of a session's events.
use oratoria_engine.Prelude.{Bool, true, false, not, ◌||◌, List, [], ◌∷◌, map, keep, if◌then◌else◌}
use oratoria_engine.Shared.Errors.{Result, ok}
use oratoria_engine.Events.Speech.{SpeechEvent}
use oratoria_engine.Events.Visual.{VisualEvent}
use oratoria_engine.Evidence.Cooccurrence.{
  FusionWindow, MultimodalCooccurrence, TimedEvent, correlate,
}

abbrev is_empty : List TimedEvent → Bool
is_empty [] = true
is_empty (e ∷ es) = false

module _ {F : Type 0} where
  unfoldable pub project_speech : List (SpeechEvent F) → Bool → List TimedEvent
  project_speech events finalized_only =
      map (λ e. record { id = e.id; interval = e.interval })
        (keep (λ e. e.is_final || not finalized_only) events)

  unfoldable pub project_visual : List (VisualEvent F) → Bool → List TimedEvent
  project_visual events finalized_only =
      map (λ e. record { id = e.id; interval = e.interval })
        (keep (λ e. e.is_final || not finalized_only) events)

  unfoldable pub fuse :
      List (SpeechEvent F)
      → List (VisualEvent F)
      → FusionWindow
      → Bool
      → Result (List MultimodalCooccurrence)
  unfolding project_speech project_visual
  fuse speech_events visual_events window finalized_only =
      let speech = project_speech speech_events finalized_only in
      let visual = project_visual visual_events finalized_only in
      if is_empty speech || is_empty visual then ok [] else correlate speech visual window
