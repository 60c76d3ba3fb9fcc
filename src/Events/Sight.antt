-- ===== src/Events/Sight.antt =====
-- What the constructor of a visual event admits, and what `finalize` changes.
use oratoria_engine.Prelude.{
  Bool, Bool-cases, true, false, ◌&&◌, not, Option, none, some, ◌≡◌, ◌↔◌, ◌⊎◌, inl, inr, refl,
  arith, if◌then◌else◌,
}
use oratoria_engine.Shared.Errors.{ok, raised, visual_event_violation}
use oratoria_engine.Shared.Provenance.{video, same_modality, same_modality_iff}
use oratoria_engine.Shared.Measurement.{Floats, meets, is_calibrated, calibrated}
use oratoria_engine.Events.Visual.{
  GazeDirection, VisualEvent, is_gaze, is_optional, has_direction, visual_event, finalize,
  require_video_modality, require_direction_only_on_gaze, require_threshold_on_optional_classes,
}

abbrev pub Directed : Bool → Option GazeDirection → Type 0
Directed gaze direction =
    ((gaze ≡ true) × ((d : GazeDirection) × (direction ≡ some d)))
    ⊎ ((gaze ≡ false) × (direction ≡ none))

Directed-iff :
    (gaze : Bool) (direction : Option GazeDirection)
    → ((if gaze then has_direction direction else not (has_direction direction)) ≡ true)
      ↔ Directed gaze direction
Directed-iff true none = (λ h. absurd (ground arith), λ k. ground arith)
Directed-iff true (some d) = (λ h. inl (refl, (d, refl)), λ k. refl)
Directed-iff false none = (λ h. inr (refl, refl), λ k. refl)
Directed-iff false (some d) = (λ h. absurd (ground arith), λ k. ground arith)

module _ (fl : Floats) (threshold : fl.F) where
  -- Visual evidence comes from video; a direction stands on the gaze classes and on no other; an
  -- optional class has a calibrated confidence of at least the threshold.
  abbrev pub IsSeen : VisualEvent fl.F → Type 0
  IsSeen e =
      (e.provenance.modality ≡ video)
      × Directed (is_gaze e.type) e.direction
      × (is_optional e.type ≡ true
          → (e.confidence.state ≡ calibrated) × (fl.le threshold e.confidence.value ≡ true))

  -- The guards as one test.
  abbrev seen : VisualEvent fl.F → Bool
  seen e =
      same_modality e.provenance.modality video
      && (if is_gaze e.type then has_direction e.direction else not (has_direction e.direction))
      && (if is_optional e.type then meets fl e.confidence threshold else true)

  visual_event_lem :
      (e : VisualEvent fl.F)
      → visual_event fl threshold e ≡ (if seen e then ok e else raised visual_event_violation)
  unfolding visual_event require_video_modality require_direction_only_on_gaze
      require_threshold_on_optional_classes
  visual_event_lem e = ground arith

  meets_iff :
      (e : VisualEvent fl.F)
      → ((if is_optional e.type then meets fl e.confidence threshold else true) ≡ true) ↔ (
          is_optional e.type ≡ true
          → (e.confidence.state ≡ calibrated) × (fl.le threshold e.confidence.value ≡ true))
  unfolding meets is_calibrated
  meets_iff e = (
    λ h k. ground arith,
    λ g. elim (Bool-cases (is_optional e.type)) [
      | inl k ↦ ground (arith, g k)
      | inr k ↦ ground arith
    ],
  )

  seen_iff : (e : VisualEvent fl.F) → (seen e ≡ true) ↔ IsSeen e
  seen_iff e = ground (
    arith,
    same_modality_iff e.provenance.modality video,
    Directed-iff (is_gaze e.type) e.direction,
    meets_iff e,
  )

  -- The constructor of a visual event succeeds exactly on the events that were seen, and returns the
  -- event that it was given.
  pub visual_event_iff :
      (e e' : VisualEvent fl.F) → (visual_event fl threshold e ≡ ok e') ↔ ((e ≡ e') × IsSeen e)
  visual_event_iff e e' = ground (arith, visual_event_lem e, seen_iff e)

  -- An event that was seen is finalized without an error, only `is_final` changes, and the
  -- result is again admitted.
  pub finalize-ok :
      (e : VisualEvent fl.F)
      → IsSeen e
      → (finalize fl threshold e ≡ ok (record e { is_final = true }))
        × (visual_event fl threshold (record e { is_final = true })
            ≡ ok (record e { is_final = true }))
  unfolding finalize
  finalize-ok e h =
      let made =
        (visual_event_iff (record e { is_final = true }) (record e { is_final = true })).1
          (refl, h) in
      (ground (arith, made), made)
