-- ===== src/Application/Assembly/Tests.antt =====
-- Runs of the theorems on two words a second apart, on a gated hypothesis and on one curve.
use oratoria_engine.Prelude.{
  ℕ, ◌+◌, ◌-◌, ◌*◌, ◌/◌, String, leb, eqb, none, List, [], ◌∷◌, map, In, lookup, ◌≡◌, ◌↔◌, inr,
  refl, arith, string_eq,
}
use oratoria_engine.Prelude.Int.{pos}
use oratoria_engine.Shared.Errors.{Result, ok, raised, visual_event_violation}
use oratoria_engine.Shared.Provenance.{Provenance, audio, video}
use oratoria_engine.Shared.Timeline.{interval_of, interval, monotonic_time}
use oratoria_engine.Shared.Measurement.{Floats, Confidence, calibrated, meets, is_calibrated}
use oratoria_engine.Shared.Taxonomy.{self_touch, visual_value}
use oratoria_engine.Transcript.{WordToken, final}
use oratoria_engine.Events.Speech.{SpeechEvent}
use oratoria_engine.Events.Visual.{is_gaze}
use oratoria_engine.Application.Assembly.Speech.{ConfigurationSnapshot, silent_pauses}
use oratoria_engine.Application.Assembly.Gaps.{IsSilence}
use oratoria_engine.Application.Assembly.Silence.{span, silent_pauses_exact}
use oratoria_engine.Application.Assembly.Visual.{
  Thresholds, VisualEventHypothesis, is_gated, threshold_for, event,
}
use oratoria_engine.Application.Assembly.Gate.{lowered_threshold_raises}
use oratoria_engine.Application.Assembly.Calibration.{Lines, CalibrationCurve}

-- Floats as thousandths.
abbrev milli : Floats
milli = record { F = ℕ; le = leb; zero = 0; one = 1000 }

abbrev heard : Provenance
heard = record {
  modality = audio;
  model_version = "asr-3";
  taxonomy_version = record { major = 1; minor = 0; patch = 0 };
  configuration = "cfg";
  evidence_ref = "audio:r1";
}

abbrev word_at : ℕ → ℕ → WordToken ℕ
word_at start_ms end_ms = record {
  id = "tok_1";
  raw_text = "hola";
  interval = record {
    start = record { ms = start_ms };
    end = record { ms = end_ms };
    tolerance_ms = 250;
  };
  confidence = 900;
  status = final;
}

abbrev words : List (WordToken ℕ)
words = word_at 100 400 ∷ word_at 1500 1900 ∷ []

abbrev no_hash : String → String
no_hash s = s

silent_pauses_exact_example :
    (ps : List (SpeechEvent ℕ)) × (silent_pauses milli no_hash "r1" words 700 heard ≡ ok ps)
    × ((s : ℕ × ℕ) → In s (map (span milli) ps) ↔ IsSilence 700 words s)
silent_pauses_exact_example =
    silent_pauses_exact milli no_hash "r1" 700 heard words (omega arith) refl refl refl
      (omega arith, (omega arith, tt), (omega arith, tt, tt))

abbrev literals : Thresholds ℕ
literals = record {
  optional_class_min_confidence = 750;
  min_face_visibility = 500;
  min_luminance = 150;
  min_framing_coverage = 600;
}

abbrev lowered : ConfigurationSnapshot ℕ
lowered = record {
  id = "cfg";
  taxonomy_version = record { major = 1; minor = 0; patch = 0 };
  silence_threshold_ms = 700;
  visual_thresholds = ("self_touch", 600) ∷ [];
}

abbrev touch : VisualEventHypothesis ℕ
touch = record {
  type = self_touch;
  start_ms = pos 100;
  end_ms = pos 900;
  score = 700;
  direction = none;
  magnitude = none;
}

abbrev trusted : String → ℕ → Result (Confidence ℕ)
trusted class_identifier score = ok (record { value = score; state = calibrated })

lowered_threshold_raises_example :
    event milli literals no_hash "r1" trusted lowered (record heard { modality = video }) touch
    ≡ raised visual_event_violation
unfolding is_gated is_gaze meets is_calibrated visual_value lookup interval_of interval
    monotonic_time threshold_for
lowered_threshold_raises_example =
    lowered_threshold_raises milli literals no_hash "r1" trusted lowered
      (record heard { modality = video }) touch
      (record { start = record { ms = 100 }; end = record { ms = 900 }; tolerance_ms = 250 })
      (record { value = 700; state = calibrated }) refl refl refl (inr (refl, refl)) refl refl refl

abbrev lines : Lines
lines = record {
  floats = milli;
  same = eqb;
  add = λ x y. x + y;
  sub = λ x y. x - y;
  mul = λ x y. x * y / 1000;
  div = λ x y. 1000 * x / y;
}

abbrev curves : List (String × CalibrationCurve lines)
curves = ("word", record { points = (0, 100) ∷ (1000, 900) ∷ [] }) ∷ []
