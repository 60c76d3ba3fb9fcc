-- ===== src/Events/Prosody.antt =====
-- src/evidence_engine/domain/speech_events/prosody.py: one indicator over one window, measured in
-- the unit that is fixed for it or unavailable with a reason.
use oratoria_engine.Prelude.{String, Bool, true, not, ◌==◌, string_eq}
use oratoria_engine.Shared.Errors.{Result, ok, prosody_violation, raise_if, ◌>>◌}
use oratoria_engine.Shared.Provenance.{Provenance}
use oratoria_engine.Shared.Timeline.{Interval}
use oratoria_engine.Shared.Measurement.{
  Confidence, Unavailable, Indicator, measured, unavailable, is_available,
}
use oratoria_engine.Shared.Taxonomy.{
  ProsodicIndicator, articulation_rate_sps, mean_intensity_db, mean_pause_duration_ms,
  pitch_mean_hz, pitch_stability, speaking_rate_wpm, voiced_ratio,
}

unfoldable pub indicator_unit : ProsodicIndicator → String
indicator_unit mean_intensity_db = "dBFS"
indicator_unit pitch_mean_hz = "Hz"
indicator_unit pitch_stability = "ratio"
indicator_unit speaking_rate_wpm = "wpm"
indicator_unit articulation_rate_sps = "syllables_per_second"
indicator_unit mean_pause_duration_ms = "ms"
indicator_unit voiced_ratio = "ratio"

pub record ProsodyReading (F : Type 0) : Type 0 where
  pub indicator : ProsodicIndicator
  pub window : Interval
  pub value : Indicator F
  pub provenance : Provenance

module _ {F : Type 0} where
  -- The unit that a value of an indicator may have: any, where there is no value.
  abbrev pub unit_fits : ProsodicIndicator → Indicator F → Bool
  unit_fits indicator (measured m) = m.unit == indicator_unit indicator
  unit_fits indicator (unavailable u) = true

  -- `ProsodyReading(...)`: the reading whose fields are given, checked by `__post_init__`
  unfoldable pub prosody_reading : ProsodyReading F → Result (ProsodyReading F)
  prosody_reading r = do raise_if (not (unit_fits r.indicator r.value)) prosody_violation; ok r

  unfoldable pub reading_is_available : ProsodyReading F → Bool
  reading_is_available r = is_available r.value

  -- `ProsodyReading.measured`
  unfoldable pub measured_reading :
      ProsodicIndicator → Interval → F → Confidence F → Provenance → Result (ProsodyReading F)
  measured_reading indicator window value confidence provenance = prosody_reading (record {
    indicator = indicator;
    window = window;
    value =
        measured
          (record { value = value; confidence = confidence; unit = indicator_unit indicator });
    provenance = provenance;
  })

  -- `ProsodyReading.unavailable`
  unfoldable pub unavailable_reading :
      ProsodicIndicator → Interval → Unavailable → Provenance → Result (ProsodyReading F)
  unavailable_reading indicator window u provenance = prosody_reading (record {
    indicator = indicator;
    window = window;
    value = unavailable u;
    provenance = provenance;
  })
