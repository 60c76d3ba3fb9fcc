-- ===== src/Shared/Timeline/Tests.antt =====
-- Runs of the timeline, and its theorems at concrete spans.
use oratoria_engine.Prelude.{◌≡◌, refl}
use oratoria_engine.Shared.Timeline.{Interval, gap_to}

abbrev early : Interval
early = record { start = record { ms = 100 }; end = record { ms = 250 }; tolerance_ms = 250 }

abbrev late : Interval
late = record { start = record { ms = 600 }; end = record { ms = 900 }; tolerance_ms = 250 }

gap_between : gap_to early late ≡ 350
unfolding gap_to
gap_between = refl
