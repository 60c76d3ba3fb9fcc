-- ===== src/Quality/Tests.antt =====
-- A camera that stops for a while, and the theorems at it.
use oratoria_engine.Prelude.{
  ℕ, ◌≡◌, ◌↔◌, inl, inr, refl, true, false, [], ◌∷◌, none, some, keep, any, All, ◌==◌,
}
use oratoria_engine.Shared.Timeline.{Interval}
use oratoria_engine.Shared.Provenance.{video, modality_eq}
use oratoria_engine.Shared.Measurement.{input_gap}
use oratoria_engine.Quality.{QualityReport, concerns}
use oratoria_engine.Quality.Availability.{IsRecorded, Disagree, disagree_iff}

abbrev span : ℕ → ℕ → Interval
span a b = record { start = record { ms = a }; end = record { ms = b }; tolerance_ms = 250 }

abbrev report : QualityReport ℕ
report = record {
  assessments = [];
  availability =
      record {
        modality = video;
        window = span 0 8000;
        is_usable = true;
        reason = none;
        detail = "";
      }
      ∷ record {
        modality = video;
        window = span 8000 28000;
        is_usable = false;
        reason = some input_gap;
        detail = "dropped";
      }
      ∷ [];
}

recorded : All IsRecorded report.availability
recorded = (inl (refl, refl), (inr (refl, (input_gap, refl)), tt))

-- No record reaches the window after 28 seconds.
disagree_iff_example : Disagree report video (span 30000 31000) ↔ (
    (any (λ a. a.modality == video) report.availability ≡ true)
    × (keep (concerns video (span 30000 31000)) report.availability ≡ []))
disagree_iff_example = disagree_iff report video (span 30000 31000) recorded
