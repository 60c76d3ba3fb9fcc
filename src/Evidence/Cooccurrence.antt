-- ===== src/Evidence/Cooccurrence.antt =====
-- src/evidence_engine/domain/evidence/cooccurrence.py: pairs of speech and visual events that are
-- near one another in time.
pub mod Pairs
pub mod Determinism
mod Tests
use oratoria_engine.Prelude.{
  ℕ, String, Bool, true, false, not, ◌&&◌, ◌||◌, List, [], ◌∷◌, ◌++◌, sort, ltb, leb, eqb, leb_text,
}
use oratoria_engine.Prelude.Int.{ℤ, pos, ltb_ℤ, pos_part}
use oratoria_engine.Shared.Errors.{Result, ok, fusion_violation, raise_if, ◌>>=◌, ◌>>◌}
use oratoria_engine.Shared.Timeline.{Interval, gap_to}

abbrev pub default_fusion_window_ms : ℕ
default_fusion_window_ms = 500

pub record FusionWindow : Type 0 where
  pub width_ms : ℕ
  pub configuration : String

-- `FusionWindow(width_ms, configuration)`
unfoldable pub fusion_window : ℤ → String → Result FusionWindow
fusion_window width_ms configuration = do
  raise_if (ltb_ℤ width_ms (pos 0)) fusion_violation
  ok (record { width_ms = pos_part width_ms; configuration = configuration })

unfoldable pub admits : FusionWindow → ℕ → Bool
admits w gap_ms = leb gap_ms w.width_ms

pub record MultimodalCooccurrence : Type 0 where
  pub speech_event_id : String
  pub visual_event_id : String
  pub temporal_distance_ms : ℕ
  pub window : FusionWindow

-- the class constant
abbrev pub causal_inference : Bool
causal_inference = false

-- `MultimodalCooccurrence(speech_event_id, visual_event_id, temporal_distance_ms, window)`
unfoldable pub cooccurrence : String → String → ℤ → FusionWindow → Result MultimodalCooccurrence
unfolding admits
cooccurrence speech_event_id visual_event_id temporal_distance_ms window = do
  raise_if (ltb_ℤ temporal_distance_ms (pos 0)) fusion_violation
  raise_if (not (admits window (pos_part temporal_distance_ms))) fusion_violation
  ok (record {
    speech_event_id = speech_event_id;
    visual_event_id = visual_event_id;
    temporal_distance_ms = pos_part temporal_distance_ms;
    window = window;
  })

pub record TimedEvent : Type 0 where
  pub id : String
  pub interval : Interval

-- `(e.interval.start.ms, e.interval.end.ms, e.id.value)`, compared as tuples
unfoldable pub le_event : TimedEvent → TimedEvent → Bool
le_event a b =
    ltb a.interval.start.ms b.interval.start.ms
    || (eqb a.interval.start.ms b.interval.start.ms
        && (ltb a.interval.end.ms b.interval.end.ms
            || (eqb a.interval.end.ms b.interval.end.ms && leb_text a.id b.id)))

-- `_ordered`
unfoldable pub ordered : List TimedEvent → List TimedEvent
ordered = sort le_event

abbrev when_admitted :
    Bool
    → Result MultimodalCooccurrence
    → Result (List MultimodalCooccurrence)
    → Result (List MultimodalCooccurrence)
when_admitted false pair rest = rest
when_admitted true pair rest = do p ← pair; ps ← rest; ok (p ∷ ps)

-- The inner `for`, at one speech event.
pub pairs_of : FusionWindow → TimedEvent → List TimedEvent → Result (List MultimodalCooccurrence)
pairs_of window speech [] = ok []
pairs_of window speech (visual ∷ rest) =
    let gap = gap_to speech.interval visual.interval in
    when_admitted (admits window gap) (cooccurrence speech.id visual.id (pos gap) window)
      (pairs_of window speech rest)

-- The outer `for`, over events that are in order.
pub all_pairs :
    FusionWindow → List TimedEvent → List TimedEvent → Result (List MultimodalCooccurrence)
all_pairs window [] visual = ok []
all_pairs window (speech ∷ rest) visual = do
  ps ← pairs_of window speech visual
  qs ← all_pairs window rest visual
  ok (ps ++ qs)

unfoldable pub correlate :
    List TimedEvent → List TimedEvent → FusionWindow → Result (List MultimodalCooccurrence)
unfolding ordered pairs_of all_pairs
correlate speech visual window = all_pairs window (ordered speech) (ordered visual)
