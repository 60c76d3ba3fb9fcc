-- ===== src/Application/Assembly/Calibration.antt =====
-- src/evidence_engine/application/services/calibration.py: raw scores made into probabilities. `li` is
-- what the code uses of the floats.
use oratoria_engine.Prelude.{
  Bool, true, false, not, ◌&&◌, Option, none, some, List, [], ◌∷◌, map, all, sort, if◌then◌else◌,
  Dict, lookup, string_eq, String, ◌≡◌, ◌⊎◌, refl, arith,
}
use oratoria_engine.Shared.Errors.{
  Result, ok, raised, value_error, index_error, raise_if, ◌>>◌, ◌>>=◌,
}
use oratoria_engine.Shared.Measurement.{
  Floats, Confidence, raw, calibrated, confidence, is_calibrated,
}

-- The floats with the arithmetic of a straight line between two points. `same` is their `==`.
pub record Lines : Type 1 where
  pub floats : Floats
  pub same : floats.F → floats.F → Bool
  pub add : floats.F → floats.F → floats.F
  pub sub : floats.F → floats.F → floats.F
  pub mul : floats.F → floats.F → floats.F
  pub div : floats.F → floats.F → floats.F

module _ (li : Lines) where
  abbrev pub F : Type 0
  F = li.floats.F

  abbrev le : F → F → Bool
  le = li.floats.le

  pub record CalibrationCurve : Type 0 where
    pub points : List (F × F)

  -- `min(a, b)` and `max(a, b)`: the first where they are equal
  abbrev lesser : F → F → F
  lesser a b = if le a b then a else b

  abbrev greater : F → F → F
  greater a b = if le b a then a else b

  abbrev same_list : List F → List F → Bool
  same_list [] [] = true
  same_list (x ∷ xs) (y ∷ ys) = li.same x y && same_list xs ys
  same_list [] (y ∷ ys) = false
  same_list (x ∷ xs) [] = false

  abbrev raws : List (F × F) → List F
  raws = map (λ p. p.0)

  abbrev probabilities : List (F × F) → List F
  probabilities = map (λ p. p.1)

  abbrev has_two : List (F × F) → Bool
  has_two [] = false
  has_two (p ∷ []) = false
  has_two (p ∷ q ∷ ps) = true

  -- `CalibrationCurve(points)`
  unfoldable pub calibration_curve : List (F × F) → Result CalibrationCurve
  unfolding sort
  calibration_curve points = do
    raise_if (not (has_two points)) value_error
    raise_if (not (same_list (raws points) (sort le (raws points)))) value_error
    raise_if (not (same_list (probabilities points) (sort le (probabilities points)))) value_error
    raise_if (not (all (λ p. le li.floats.zero p && le p li.floats.one) (probabilities points)))
        value_error
    ok (record { points = points })

  -- The line from one point to the next.
  abbrev between : F × F → F × F → F → F
  between (x0, y0) (x1, y1) clamped =
      if li.same x1 x0
      then y1
      else li.add y0 (li.mul (li.div (li.sub clamped x0) (li.sub x1 x0)) (li.sub y1 y0))

  -- The loop over `pairwise(self.points)`, and what follows it.
  segment : List (F × F) → F → F → F
  segment [] clamped last = last
  segment (p ∷ []) clamped last = last
  segment (p ∷ q ∷ ps) clamped last =
      let rest = segment (q ∷ ps) clamped last in
      if le p.0 clamped && le clamped q.0 then between p q clamped else rest

  abbrev last_point : F × F → List (F × F) → F × F
  last_point p [] = p
  last_point p (q ∷ ps) = last_point q ps

  unfoldable pub apply : CalibrationCurve → F → Result F
  unfolding segment
  apply curve raw_score = elim curve.points [
    | [] ↦ raised index_error
    | p ∷ ps ↦
        ok (
          segment (p ∷ ps) (lesser (greater raw_score p.0) (last_point p ps).0) (last_point p ps).1)
  ]

  unfoldable pub clamp_unit : F → F
  clamp_unit value = lesser (greater value li.floats.zero) li.floats.one

  -- The confidence at the curve that the class has.
  abbrev at_curve : Option CalibrationCurve → F → Result (Confidence F)
  at_curve none raw_score = confidence li.floats (clamp_unit raw_score) raw
  at_curve (some curve) raw_score = do
    probability ← apply curve raw_score
    confidence li.floats (clamp_unit probability) calibrated

  unfoldable pub calibrate : Dict String CalibrationCurve → String → F → Result (Confidence F)
  unfolding apply clamp_unit
  calibrate curves class_identifier raw_score = at_curve (lookup class_identifier curves) raw_score

  abbrev is_some : Option CalibrationCurve → Bool
  is_some none = false
  is_some (some c) = true

  unfoldable pub has_curve_for : Dict String CalibrationCurve → String → Bool
  has_curve_for curves class_identifier = is_some (lookup class_identifier curves)

  module _ (total : (x y : F) → (le x y ≡ true) ⊎ (le y x ≡ true))
      (unit : le li.floats.zero li.floats.one ≡ true) where
    clamp_unit-lem :
        (x : F) → (le li.floats.zero (clamp_unit x) && le (clamp_unit x) li.floats.one) ≡ true
    unfolding clamp_unit
    clamp_unit-lem x = ground (
      arith,
      total x li.floats.zero,
      total li.floats.zero li.floats.zero,
      total (greater x li.floats.zero) li.floats.one,
      total li.floats.one li.floats.one,
      unit,
    )

    apply-ok :
        (points : List (F × F)) (x : F)
        → has_two points ≡ true
        → (y : F) × (apply (record { points = points }) x ≡ ok y)
    unfolding apply
    apply-ok [] x h = absurd (ground arith)
    apply-ok (p ∷ []) x h = absurd (ground arith)
    apply-ok (p ∷ q ∷ ps) x h = (_, refl)

    at_curve-ok :
        (o : Option CalibrationCurve) (x : F)
        → ((curve : CalibrationCurve) → o ≡ some curve → has_two curve.points ≡ true)
        → (c : Confidence F) × (at_curve o x ≡ ok c) × (is_calibrated li.floats c ≡ is_some o)
    unfolding confidence is_calibrated
    at_curve-ok none x h =
        (record { value = clamp_unit x; state = raw }, rw (clamp_unit-lem x) refl, refl)
    at_curve-ok (some curve) x h =
        let (y, e) = apply-ok curve.points x (h curve refl) in
        (record { value = clamp_unit y; state = calibrated }, rw (e, clamp_unit-lem y) refl, refl)

    -- The floats ordered, and 0 at most 1: a calibrator whose curves have points gives every class and every score a
    -- confidence, without an error, and that confidence is calibrated exactly when the class has a curve.
    pub calibrate-ok :
        (curves : Dict String CalibrationCurve) (class_identifier : String) (raw_score : F)
        → ((curve : CalibrationCurve)
            → lookup class_identifier curves ≡ some curve
            → has_two curve.points ≡ true)
        → (c : Confidence F) × (calibrate curves class_identifier raw_score ≡ ok c)
          × (is_calibrated li.floats c ≡ has_curve_for curves class_identifier)
    unfolding calibrate is_calibrated has_curve_for
    calibrate-ok curves class_identifier raw_score h =
        at_curve-ok (lookup class_identifier curves) raw_score h
