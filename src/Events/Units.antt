-- ===== src/Events/Units.antt =====
-- What the constructor of a prosodic reading admits: a number in the unit of its indicator, or a
-- reason.
use oratoria_engine.Prelude.{true, false, ◌≡◌, ◌↔◌, refl, arith, string_eq, ==-refl}
use oratoria_engine.Shared.Errors.{ok}
use oratoria_engine.Shared.Provenance.{Provenance}
use oratoria_engine.Shared.Timeline.{Interval}
use oratoria_engine.Shared.Measurement.{
  Confidence, Unavailable, Indicator, Measured, measured, unavailable, is_available,
}
use oratoria_engine.Shared.Taxonomy.{ProsodicIndicator}
use oratoria_engine.Events.Prosody.{
  ProsodyReading, prosody_reading, indicator_unit, unit_fits, measured_reading, unavailable_reading,
  reading_is_available,
}

module _ {F : Type 0} where
  unit_fits_iff :
      (i : ProsodicIndicator) (v : Indicator F)
      → (unit_fits i v ≡ true) ↔ ((m : Measured F) → v ≡ measured m → m.unit ≡ indicator_unit i)
  unit_fits_iff i (measured m) = (
    λ h n e. ground (arith, string_eq.beq_iff m.unit (indicator_unit i)),
    λ h. (string_eq.beq_iff m.unit (indicator_unit i)).1 (h m refl),
  )
  unit_fits_iff i (unavailable u) = (λ h n e. absurd (ground arith), λ h. refl)

  -- A reading is admitted, as it was given, exactly when a number in it has the unit of its
  -- indicator.
  pub prosody_reading_iff :
      (r r' : ProsodyReading F)
      → (prosody_reading r ≡ ok r') ↔ (
          (r ≡ r')
          × ((m : Measured F) → r.value ≡ measured m → m.unit ≡ indicator_unit r.indicator))
  unfolding prosody_reading
  prosody_reading_iff r r' = (
    λ h. (ground arith, (unit_fits_iff r.indicator r.value).0 (ground arith)),
    λ (e, k). let fits = (unit_fits_iff r.indicator r.value).1 k in ground (arith, fits),
  )

  abbrev reading : ProsodicIndicator → Interval → Indicator F → Provenance → ProsodyReading F
  reading i w v p = record { indicator = i; window = w; value = v; provenance = p }

  -- Both ways to build a reading succeed whatever they are given, and it is available exactly when it was
  -- built from a number.
  pub build_reading :
      (i : ProsodicIndicator) (w : Interval) (p : Provenance)
      → ((x : F) (c : Confidence F)
          → (r : ProsodyReading F) × (measured_reading i w x c p ≡ ok r)
            × (reading_is_available r ≡ true))
        × ((u : Unavailable)
            → (r : ProsodyReading F) × (unavailable_reading i w u p ≡ ok r)
              × (reading_is_available r ≡ false))
  unfolding measured_reading unavailable_reading reading_is_available prosody_reading is_available
  build_reading i w p = (
    λ x c. (
      reading i w (measured (record { value = x; confidence = c; unit = indicator_unit i })) p,
      rw (==-refl (indicator_unit i)) refl,
      refl,
    ),
    λ u. (reading i w (unavailable u) p, refl, refl),
  )
