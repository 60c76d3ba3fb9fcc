-- ===== src/Evidence/Cooccurrence/Tests.antt =====
-- Two words and one gesture, and the theorems at them.
use oratoria_engine.Prelude.{◌≡◌, ◌↔◌, refl, ℕ, String, List, [], ◌∷◌, In}
use oratoria_engine.Prelude.Shuffle.{swap, same, IsKeyed-one, IsKeyed-two, IsKeyed}
use oratoria_engine.Shared.Errors.{ok}
use oratoria_engine.Evidence.Cooccurrence.{
  FusionWindow, MultimodalCooccurrence, TimedEvent, correlate, le_event,
}
use oratoria_engine.Evidence.Cooccurrence.Pairs.{IsPairOf, correlate-ok}
use oratoria_engine.Evidence.Cooccurrence.Determinism.{correlate_order_free}

abbrev window : FusionWindow
window = record { width_ms = 500; configuration = "c1" }

abbrev event : String → ℕ → ℕ → TimedEvent
event name a b = record {
  id = name;
  interval = record { start = record { ms = a }; end = record { ms = b }; tolerance_ms = 250 };
}

abbrev words : List TimedEvent
words = event "w2" 900 1200 ∷ event "w1" 100 300 ∷ []

abbrev gestures : List TimedEvent
gestures = event "g1" 600 800 ∷ []

tie_free : IsKeyed le_event words
unfolding le_event
tie_free = IsKeyed-two le_event refl

correlate-ok_example :
    (ps : List MultimodalCooccurrence) × (correlate words gestures window ≡ ok ps)
    × ((p : MultimodalCooccurrence) → In p ps ↔ IsPairOf window words gestures p)
correlate-ok_example = correlate-ok window words gestures

correlate_order_free_example :
    correlate words gestures window
    ≡ correlate (event "w1" 100 300 ∷ event "w2" 900 1200 ∷ []) gestures window
correlate_order_free_example = correlate_order_free window swap same tie_free (IsKeyed-one le_event)
