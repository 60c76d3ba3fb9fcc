-- ===== src/Events/Calibration.antt =====
-- src/evidence_engine/domain/visual_events/calibration.py: the speaker's own baseline. `an` is what
-- the code uses of the floats.
use oratoria_engine.Prelude.{Bool, not, ◌&&◌, if◌then◌else◌}
use oratoria_engine.Shared.Errors.{Result, ok, calibration_violation, raise_if, ◌>>◌}

-- The comparisons, the subtraction and `abs` of the floats, and the literals of the file.
pub record Angles : Type 1 where
  pub F : Type 0
  pub le : F → F → Bool
  pub lt : F → F → Bool
  pub sub : F → F → F
  pub abs : F → F
  pub zero : F
  pub one : F
  pub right_angle : F

pub record VisualCalibration (F : Type 0) : Type 0 where
  pub baseline_yaw_degrees : F
  pub baseline_pitch_degrees : F
  pub baseline_torso_degrees : F
  pub gaze_cone_degrees : F
  pub posture_deviation_degrees : F
  pub min_landmark_visibility : F

module _ (an : Angles) where
  -- `VisualCalibration(...)`: the calibration whose fields are given, checked by `__post_init__`
  unfoldable pub visual_calibration : VisualCalibration an.F → Result (VisualCalibration an.F)
  visual_calibration c = do
    raise_if (not (an.lt an.zero c.gaze_cone_degrees && an.lt c.gaze_cone_degrees an.right_angle))
        calibration_violation
    raise_if (an.le c.posture_deviation_degrees an.zero) calibration_violation
    raise_if
        (not (an.le an.zero c.min_landmark_visibility && an.le c.min_landmark_visibility an.one))
        calibration_violation
    ok c

  -- `max(a, b)`: the first of the largest
  abbrev largest : an.F → an.F → an.F
  largest a b = if an.lt a b then b else a

  unfoldable pub is_within_gaze_cone : VisualCalibration an.F → an.F → an.F → Bool
  is_within_gaze_cone c yaw_degrees pitch_degrees =
      let yaw_offset = an.abs (an.sub yaw_degrees c.baseline_yaw_degrees) in
      let pitch_offset = an.abs (an.sub pitch_degrees c.baseline_pitch_degrees) in
      an.le (largest yaw_offset pitch_offset) c.gaze_cone_degrees

  unfoldable pub posture_offset : VisualCalibration an.F → an.F → an.F
  posture_offset c torso_degrees = an.abs (an.sub torso_degrees c.baseline_torso_degrees)

  unfoldable pub exceeds_posture_threshold : VisualCalibration an.F → an.F → Bool
  unfolding posture_offset
  exceeds_posture_threshold c torso_degrees =
      an.lt c.posture_deviation_degrees (posture_offset c torso_degrees)
