-- ===== src/Quality.antt =====
-- src/evidence_engine/domain/quality/assessment.py: what each modality can support, and over which
-- stretch. `F` is the type of the floats, which this code only stores.
pub mod Availability
mod Tests
use oratoria_engine.Prelude.{
  ℕ, String, Bool, true, false, not, ◌&&◌, ◌||◌, List, [], ◌∷◌, ◌++◌, Option, none, some, keep, all,
  any, eqb, if◌then◌else◌, ◌==◌, Eq, Dict, insert,
}
use oratoria_engine.Shared.Errors.{Result, ok, raised, quality_violation, raise_if, ◌>>=◌, ◌>>◌}
use oratoria_engine.Shared.Timeline.{Interval, overlaps}
use oratoria_engine.Shared.Provenance.{Modality, modality_eq}
use oratoria_engine.Shared.Measurement.{
  Indicator, measured, unavailable, Unavailable, UnavailabilityReason, modality_not_captured,
  is_available,
}

pub data QualityMetric : Type 0 where
  signal_to_noise_db clipping_ratio silence_ratio input_level_dbfs : QualityMetric
  face_visibility_ratio mean_luminance framing_coverage landmark_confidence : QualityMetric
  chunk_loss_ratio audio_video_skew_ms effective_frame_rate_fps : QualityMetric

pub record QualityAssessment (F : Type 0) : Type 0 where
  pub modality : Modality
  pub metric : QualityMetric
  pub window : Interval
  pub value : Indicator F

unfoldable pub reason_of : {F : Type 0} → QualityAssessment F → Option UnavailabilityReason
reason_of a = elim a.value [ measured m ↦ none | unavailable u ↦ some u.reason ]

pub record ModalityAvailability : Type 0 where
  pub modality : Modality
  pub window : Interval
  pub is_usable : Bool
  pub reason : Option UnavailabilityReason
  pub detail : String

abbrev is_none : Option UnavailabilityReason → Bool
is_none none = true
is_none (some r) = false

-- `ModalityAvailability(modality, window, is_usable, reason, detail)`
unfoldable pub modality_availability :
    Modality → Interval → Bool → Option UnavailabilityReason → String → Result ModalityAvailability
modality_availability modality window is_usable reason detail = do
  raise_if (not is_usable && is_none reason) quality_violation
  raise_if (is_usable && not (is_none reason)) quality_violation
  ok (record {
    modality = modality;
    window = window;
    is_usable = is_usable;
    reason = reason;
    detail = detail;
  })

unfoldable pub usable : Modality → Interval → Result ModalityAvailability
unfolding modality_availability
usable modality window = modality_availability modality window true none ""

unfoldable pub unusable :
    Modality → Interval → UnavailabilityReason → String → Result ModalityAvailability
unfolding modality_availability
unusable modality window reason detail =
    modality_availability modality window false (some reason) detail

-- `as_unavailable`, at the reason that the record holds
abbrev with_reason : ModalityAvailability → Option UnavailabilityReason → Result Unavailable
with_reason a none = raised quality_violation
with_reason a (some reason) =
    if a.is_usable
    then raised quality_violation
    else ok (record { reason = reason; detail = a.detail })

unfoldable pub as_unavailable : ModalityAvailability → Result Unavailable
as_unavailable a = with_reason a a.reason

pub record QualityReport (F : Type 0) : Type 0 where
  pub assessments : List (QualityAssessment F)
  pub availability : List ModalityAvailability

-- The records of a modality that overlap the window.
abbrev pub concerns : Modality → Interval → ModalityAvailability → Bool
concerns modality window a = a.modality == modality && overlaps a.window window

abbrev some_result : Result Unavailable → Result (Option Unavailable)
some_result r = do u ← r; ok (some u)

-- The `for` of `unavailability_for`, with what follows it.
abbrev pub first_unusable :
    Modality
    → Interval
    → List ModalityAvailability
    → Option Unavailable
    → Result (Option Unavailable)
first_unusable modality window [] after = ok after
first_unusable modality window (a ∷ rest) after =
    let next = first_unusable modality window rest after in
    if concerns modality window a && not a.is_usable then some_result (as_unavailable a) else next

-- An empty list is not usable.
abbrev all_usable : List ModalityAvailability → Bool
all_usable [] = false
all_usable (a ∷ rest) = all (λ b. b.is_usable) (a ∷ rest)

module _ {F : Type 0} where
  unfoldable pub for_modality : QualityReport F → Modality → List (QualityAssessment F)
  for_modality r modality = keep (λ a. a.modality == modality) r.assessments

  unfoldable pub is_usable : QualityReport F → Modality → Interval → Bool
  is_usable r modality window = all_usable (keep (concerns modality window) r.availability)

  unfoldable pub unavailability_for :
      QualityReport F → Modality → Interval → Result (Option Unavailable)
  unavailability_for r modality window = first_unusable modality window r.availability (
      if any (λ a. a.modality == modality) r.availability
      then none
      else some (record { reason = modality_not_captured; detail = "" }))

  unfoldable pub extended :
      QualityReport F → List (QualityAssessment F) → List ModalityAvailability → QualityReport F
  extended r assessments availability = record {
    assessments = r.assessments ++ assessments;
    availability = r.availability ++ availability;
  }
