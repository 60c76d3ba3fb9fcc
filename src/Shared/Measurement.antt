-- ===== src/Shared/Measurement.antt =====
-- src/evidence_engine/domain/shared/confidence.py and measurement.py. `F` is the type of the
-- floats, with the comparison `le` and the constants that the code writes.
use oratoria_engine.Prelude.{String, Bool, true, false, not, ◌&&◌}
use oratoria_engine.Shared.Errors.{
  Result, ok, raised, invalid_confidence, fabricated_value, raise_if, ◌>>◌,
}

-- What the code uses of the floats.
pub record Floats : Type 1 where
  pub F : Type 0
  pub le : F → F → Bool
  pub zero : F
  pub one : F

pub data CalibrationState : Type 0 where
  raw calibrated : CalibrationState

pub data UnavailabilityReason : Type 0 where
  modality_not_captured quality_below_threshold subject_not_observable : UnavailabilityReason
  input_gap processing_failed confidence_below_threshold : UnavailabilityReason
  insufficient_observation evidence_deleted : UnavailabilityReason

pub record Unavailable : Type 0 where
  pub reason : UnavailabilityReason
  pub detail : String

pub record Confidence (F : Type 0) : Type 0 where
  pub value : F
  pub state : CalibrationState

pub record Measured (F : Type 0) : Type 0 where
  pub value : F
  pub confidence : Confidence F
  pub unit : String

-- `type Indicator = Measured | Unavailable`
pub data Indicator (F : Type 0) : Type 0 where
  measured : Measured F → Indicator F
  unavailable : Unavailable → Indicator F

unfoldable pub is_available : {F : Type 0} → Indicator F → Bool
is_available (measured m) = true
is_available (unavailable u) = false

unfoldable pub value_or_raise : {F : Type 0} → Indicator F → Result F
value_or_raise (measured m) = ok m.value
value_or_raise (unavailable u) = raised fabricated_value

module _ (fl : Floats) where
  -- `Confidence(value, state)`
  unfoldable pub confidence : fl.F → CalibrationState → Result (Confidence fl.F)
  confidence value state = do
    raise_if (not (fl.le fl.zero value && fl.le value fl.one)) invalid_confidence
    ok (record { value = value; state = state })

  unfoldable pub is_calibrated : Confidence fl.F → Bool
  is_calibrated c = elim c.state [ raw ↦ false | calibrated ↦ true ]

  unfoldable pub meets : Confidence fl.F → fl.F → Bool
  unfolding is_calibrated
  meets c threshold = is_calibrated c && fl.le threshold c.value
