-- ===== src/Application/Assembly/Visual.antt =====
-- src/evidence_engine/application/services/visual_assembly.py, with the hypotheses of
-- application/ports/runtimes.py. `calibrate` is `Calibrator.calibrate`; `thresholds` holds the literals
-- of the file.
use Prim.Native.String.{◌++◌}
use oratoria_engine.Prelude.{
  ℕ, ◌+◌, String, Bool, true, false, not, ◌&&◌, Option, none, some, List, [], ◌∷◌,
  ◌++◌ as append_list, if◌then◌else◌, lookup, string_eq,
}
use oratoria_engine.Prelude.Int.{ℤ}
use oratoria_engine.Shared.Errors.{Result, ok, ◌>>=◌, each}
use oratoria_engine.Shared.Provenance.{Provenance, Modality, video}
use oratoria_engine.Shared.Timeline.{Interval}
use oratoria_engine.Shared.Measurement.{
  Floats, Confidence, measured, calibrated, confidence, meets, subject_not_observable,
  quality_below_threshold, modality_not_captured,
}
use oratoria_engine.Shared.Taxonomy.{
  VisualEventType, visual_value, gaze_toward_camera, gaze_away_from_camera, face_visibility_loss,
  insufficient_lighting, insufficient_framing, posture_deviation, repetitive_torso_movement,
  self_touch, repetitive_hand_movement,
}
use oratoria_engine.Quality.{
  QualityMetric, face_visibility_ratio, mean_luminance, framing_coverage, landmark_confidence,
  QualityAssessment, ModalityAvailability, unusable, usable,
}
use oratoria_engine.Events.Visual.{GazeDirection, VisualEvent, visual_event}
use oratoria_engine.Application.Assembly.Identity.{derive_event_id}
use oratoria_engine.Application.Assembly.Speech.{ConfigurationSnapshot, window_of}

pub record VisualEventHypothesis (F : Type 0) : Type 0 where
  pub type : VisualEventType
  pub start_ms : ℤ
  pub end_ms : ℤ
  pub score : F
  pub direction : Option GazeDirection
  pub magnitude : Option F

pub record VisualQualitySignal (F : Type 0) : Type 0 where
  pub start_ms : ℤ
  pub end_ms : ℤ
  pub face_visibility : F
  pub mean_luminance : F
  pub framing_coverage : F
  pub landmark_confidence : F

pub record VisualResult (F : Type 0) : Type 0 where
  pub model_version : String
  pub events : List (VisualEventHypothesis F)
  pub quality : List (VisualQualitySignal F)

pub record AssembledVisual (F : Type 0) : Type 0 where
  pub events : List (VisualEvent F)
  pub assessments : List (QualityAssessment F)
  pub availability : List ModalityAvailability
  pub gated_out : ℕ

-- The literals of the file and of events.py.
pub record Thresholds (F : Type 0) : Type 0 where
  pub optional_class_min_confidence : F
  pub min_face_visibility : F
  pub min_luminance : F
  pub min_framing_coverage : F

-- Membership of `_GATED_CLASSES`
unfoldable pub is_gated : VisualEventType → Bool
is_gated gaze_toward_camera = false
is_gated gaze_away_from_camera = false
is_gated face_visibility_loss = false
is_gated insufficient_lighting = false
is_gated insufficient_framing = false
is_gated posture_deviation = false
is_gated repetitive_torso_movement = false
is_gated self_touch = true
is_gated repetitive_hand_movement = true

-- `modality_not_captured`
unfoldable pub all_not_captured : List Interval → Modality → Result (List ModalityAvailability)
all_not_captured windows modality = each (λ w. unusable modality w modality_not_captured "") windows

unfoldable pub visual_provenance :
    {F : Type 0} → String → ConfigurationSnapshot F → String → Provenance
visual_provenance run_id configuration model_version = record {
  modality = video;
  model_version = model_version;
  taxonomy_version = configuration.taxonomy_version;
  configuration = configuration.id;
  evidence_ref = "video:" ++ run_id;
}

module _ (fl : Floats) (th : Thresholds fl.F) where
  -- `self._configuration.visual_thresholds.get(type, OPTIONAL_CLASS_MIN_CONFIDENCE)`
  unfoldable pub threshold_for : List (String × fl.F) → VisualEventType → fl.F
  threshold_for thresholds type = elim (lookup (visual_value type) thresholds) [
    | none ↦ th.optional_class_min_confidence
    | some t ↦ t
  ]

  -- `_assessments`
  unfoldable pub assessments : VisualQualitySignal fl.F → Result (List (QualityAssessment fl.F))
  assessments signal = do
    window ← window_of signal.start_ms signal.end_ms
    certain ← confidence fl fl.one calibrated
    let assess : QualityMetric → fl.F → QualityAssessment fl.F = λ metric value. record {
      modality = video;
      metric = metric;
      window = window;
      value = measured (record { value = value; confidence = certain; unit = "ratio" });
    }
    ok (
        assess face_visibility_ratio signal.face_visibility
        ∷ assess mean_luminance signal.mean_luminance
        ∷ assess framing_coverage signal.framing_coverage
        ∷ assess landmark_confidence signal.landmark_confidence
        ∷ [])

  -- `_availability`: the first reading below its threshold gives the reason. For floats that are not
  -- NaN, `x < t` is `not t <= x`.
  unfoldable pub availability : VisualQualitySignal fl.F → Result ModalityAvailability
  availability signal = do
    window ← window_of signal.start_ms signal.end_ms
    if not (fl.le th.min_face_visibility signal.face_visibility)
        then unusable video window subject_not_observable ""
        else if not (fl.le th.min_luminance signal.mean_luminance)
        then unusable video window quality_below_threshold ""
        else if not (fl.le th.min_framing_coverage signal.framing_coverage)
        then unusable video window quality_below_threshold ""
        else usable video window

  module _ (digest : String → String) (run_id : String)
      (calibrate : String → fl.F → Result (Confidence fl.F)) where
    -- The event of a hypothesis at its confidence, which the gate has let through.
    abbrev build :
        Provenance → VisualEventHypothesis fl.F → Confidence fl.F → Result (VisualEvent fl.F)
    build provenance h confidence = do
      interval ← window_of h.start_ms h.end_ms
      visual_event fl th.optional_class_min_confidence (record {
        id = derive_event_id digest run_id (visual_value h.type) h.start_ms "";
        type = h.type;
        interval = interval;
        confidence = confidence;
        provenance = provenance;
        direction = h.direction;
        magnitude = h.magnitude;
        is_final = false;
      })

    -- `_event`; `None` is an event that the gate holds back
    unfoldable pub event :
        ConfigurationSnapshot fl.F
        → Provenance
        → VisualEventHypothesis fl.F
        → Result (Option (VisualEvent fl.F))
    unfolding threshold_for
    event configuration provenance h = do
      confidence ← calibrate (visual_value h.type) h.score
      if is_gated h.type
            && not (meets fl confidence (threshold_for configuration.visual_thresholds h.type))
          then ok none
          else (build provenance h confidence >>= λ e. ok (some e))

    abbrev pub present : List (Option (VisualEvent fl.F)) → List (VisualEvent fl.F)
    present [] = []
    present (none ∷ rest) = present rest
    present (some e ∷ rest) = e ∷ present rest

    abbrev pub absent : List (Option (VisualEvent fl.F)) → ℕ
    absent [] = 0
    absent (none ∷ rest) = absent rest + 1
    absent (some e ∷ rest) = absent rest

    abbrev pub joined : List (List (QualityAssessment fl.F)) → List (QualityAssessment fl.F)
    joined [] = []
    joined (xs ∷ rest) = append_list xs (joined rest)

    -- `VisualAssembler.assemble`
    unfoldable pub assemble :
        ConfigurationSnapshot fl.F → VisualResult fl.F → Result (AssembledVisual fl.F)
    unfolding event assessments availability visual_provenance
    assemble configuration result = do
      let provenance = visual_provenance run_id configuration result.model_version
      built ← each (event configuration provenance) result.events
      assessed ← each assessments result.quality
      records ← each availability result.quality
      ok (record {
        events = present built;
        assessments = joined assessed;
        availability = records;
        gated_out = absent built;
      })
