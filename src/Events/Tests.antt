-- ===== src/Events/Tests.antt =====
-- Runs of the theorems on a muletilla and on a glance aside.
use oratoria_engine.Prelude.{ℕ, false, leb, none, some, ◌≡◌, ◌↔◌, inl, refl, is_blank}
use oratoria_engine.Shared.Errors.{ok}
use oratoria_engine.Shared.Provenance.{Provenance, audio, video}
use oratoria_engine.Shared.Timeline.{Interval}
use oratoria_engine.Shared.Measurement.{Floats, Confidence, calibrated}
use oratoria_engine.Shared.Taxonomy.{lexical_filler, filler, self_touch}
use oratoria_engine.Events.Speech
use oratoria_engine.Events.Guards.{IsHeard, speech_event_iff}
use oratoria_engine.Events.Visual
use oratoria_engine.Events.Sight.{IsSeen, visual_event_iff}

-- Floats as thousandths.
abbrev thousandths : Floats
thousandths = record { F = ℕ; le = leb; zero = 0; one = 1000 }

abbrev sure : Confidence ℕ
sure = record { value = 910; state = calibrated }

abbrev span : Interval
span = record { start = record { ms = 1200 }; end = record { ms = 1500 }; tolerance_ms = 50 }

abbrev heard_at : Provenance
heard_at = record {
  modality = audio;
  model_version = "asr-3";
  taxonomy_version = record { major = 1; minor = 0; patch = 0 };
  configuration = "cfg";
  evidence_ref = "audio:r1";
}

abbrev muletilla : Speech.SpeechEvent ℕ
muletilla = record {
  id = "ev_1";
  type = lexical_filler;
  interval = span;
  confidence = sure;
  provenance = heard_at;
  raw_text = "este";
  context_role = some filler;
  is_final = false;
}

abbrev glance : Visual.VisualEvent ℕ
glance = record {
  id = "ev_2";
  type = self_touch;
  interval = span;
  confidence = sure;
  provenance = record heard_at { modality = video };
  direction = none;
  magnitude = none;
  is_final = false;
}

muletilla-IsHeard : IsHeard muletilla
unfolding Speech.is_lexical is_blank
muletilla-IsHeard = (refl, inl (refl, refl, (filler, refl)))

speech_event_iff_example :
    (Speech.speech_event muletilla ≡ ok muletilla) ↔ ((muletilla ≡ muletilla) × IsHeard muletilla)
speech_event_iff_example = speech_event_iff muletilla muletilla

visual_event_iff_example :
    (Visual.visual_event thousandths 750 glance ≡ ok glance)
    ↔ ((glance ≡ glance) × IsSeen thousandths 750 glance)
visual_event_iff_example = visual_event_iff thousandths 750 glance glance
