-- ===== src/Events/Visual.antt =====
-- src/evidence_engine/domain/visual_events/events.py: an observation about what the camera saw.
use oratoria_engine.Prelude.{String, Bool, true, false, not, Option, none, some, if◌then◌else◌}
use oratoria_engine.Shared.Errors.{Result, ok, visual_event_violation, raise_if, ◌>>◌}
use oratoria_engine.Shared.Provenance.{Provenance, same_modality, video}
use oratoria_engine.Shared.Timeline.{Interval}
use oratoria_engine.Shared.Measurement.{Floats, Confidence, meets}
use oratoria_engine.Shared.Taxonomy.{
  VisualEventType, face_visibility_loss, gaze_away_from_camera, gaze_toward_camera,
  insufficient_framing, insufficient_lighting, posture_deviation, repetitive_hand_movement,
  repetitive_torso_movement, self_touch,
}

pub data GazeDirection : Type 0 where
  up down left right undetermined : GazeDirection

-- Membership of `_GAZE_CLASSES`
unfoldable pub is_gaze : VisualEventType → Bool
is_gaze gaze_toward_camera = true
is_gaze gaze_away_from_camera = true
is_gaze face_visibility_loss = false
is_gaze insufficient_lighting = false
is_gaze insufficient_framing = false
is_gaze posture_deviation = false
is_gaze repetitive_torso_movement = false
is_gaze self_touch = false
is_gaze repetitive_hand_movement = false

-- Membership of `_QUALITY_CLASSES`
unfoldable pub is_quality : VisualEventType → Bool
is_quality gaze_toward_camera = false
is_quality gaze_away_from_camera = false
is_quality face_visibility_loss = true
is_quality insufficient_lighting = true
is_quality insufficient_framing = true
is_quality posture_deviation = false
is_quality repetitive_torso_movement = false
is_quality self_touch = false
is_quality repetitive_hand_movement = false

-- Membership of `_OPTIONAL_CLASSES`
unfoldable pub is_optional : VisualEventType → Bool
is_optional gaze_toward_camera = false
is_optional gaze_away_from_camera = false
is_optional face_visibility_loss = false
is_optional insufficient_lighting = false
is_optional insufficient_framing = false
is_optional posture_deviation = false
is_optional repetitive_torso_movement = false
is_optional self_touch = true
is_optional repetitive_hand_movement = true

pub record VisualEvent (F : Type 0) : Type 0 where
  pub id : String
  pub type : VisualEventType
  pub interval : Interval
  pub confidence : Confidence F
  pub provenance : Provenance
  pub direction : Option GazeDirection
  pub magnitude : Option F
  pub is_final : Bool

abbrev pub has_direction : Option GazeDirection → Bool
has_direction none = false
has_direction (some d) = true

unfoldable pub require_video_modality : {F : Type 0} → VisualEvent F → Result (Unit {0})
require_video_modality e =
    raise_if (not (same_modality e.provenance.modality video)) visual_event_violation

unfoldable pub require_direction_only_on_gaze : {F : Type 0} → VisualEvent F → Result (Unit {0})
require_direction_only_on_gaze e =
    if is_gaze e.type
    then raise_if (not (has_direction e.direction)) visual_event_violation
    else raise_if (has_direction e.direction) visual_event_violation

unfoldable pub describes_capture_quality : {F : Type 0} → VisualEvent F → Bool
describes_capture_quality e = is_quality e.type

-- `threshold` is OPTIONAL_CLASS_MIN_CONFIDENCE, the float 0.75.
module _ (fl : Floats) (threshold : fl.F) where
  unfoldable pub require_threshold_on_optional_classes : VisualEvent fl.F → Result (Unit {0})
  require_threshold_on_optional_classes e =
      if not (is_optional e.type)
      then ok tt
      else raise_if (not (meets fl e.confidence threshold)) visual_event_violation

  -- `VisualEvent(...)`: the event whose fields are given, checked by `__post_init__`
  unfoldable pub visual_event : VisualEvent fl.F → Result (VisualEvent fl.F)
  unfolding require_video_modality require_direction_only_on_gaze
      require_threshold_on_optional_classes
  visual_event e = do
    require_video_modality e
    require_direction_only_on_gaze e
    require_threshold_on_optional_classes e
    ok e

  unfoldable pub finalize : VisualEvent fl.F → Result (VisualEvent fl.F)
  finalize e = if e.is_final then ok e else visual_event (record e { is_final = true })
