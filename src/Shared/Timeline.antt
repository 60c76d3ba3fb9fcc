-- ===== src/Shared/Timeline.antt =====
-- src/evidence_engine/domain/shared/timeline.py: points and spans on the session clock. A point
-- that was constructed is never negative, so its field is a natural number; what is handed to a
-- constructor is a signed integer.
pub mod Distance
mod Tests
use oratoria_engine.Prelude.{ℕ, ◌+◌, ◌-◌, ◌/◌, ◌≤◌, ◌≡◌, Bool, ◌&&◌, ltb, leb, if◌then◌else◌}
use oratoria_engine.Prelude.Int.{ℤ, pos, pos_part, ltb_ℤ, ◌+ℤ◌}
use oratoria_engine.Shared.Errors.{Result, ok, invalid_interval, raise_if, ◌>>=◌, ◌>>◌}

abbrev pub default_tolerance_ms : ℕ
default_tolerance_ms = 250

pub record MonotonicTime : Type 0 where
  pub ms : ℕ

-- `MonotonicTime(ms)`
unfoldable pub monotonic_time : ℤ → Result MonotonicTime
monotonic_time ms = do
  raise_if (ltb_ℤ ms (pos 0)) invalid_interval
  ok (record { ms = pos_part ms })

unfoldable pub plus : MonotonicTime → ℤ → Result MonotonicTime
unfolding monotonic_time ◌+ℤ◌
plus t delta_ms = monotonic_time (pos t.ms +ℤ delta_ms)

-- `abs(a - b)`
abbrev pub abs_diff : ℕ → ℕ → ℕ
abs_diff a b = if leb a b then b - a else a - b

unfoldable pub distance_to : MonotonicTime → MonotonicTime → ℕ
distance_to t other = abs_diff t.ms other.ms

pub record Interval : Type 0 where
  pub start : MonotonicTime
  pub end : MonotonicTime
  pub tolerance_ms : ℕ

-- `Interval(start, end, tolerance_ms)`
unfoldable pub interval : MonotonicTime → MonotonicTime → ℤ → Result Interval
interval start end tolerance_ms = do
  raise_if (ltb end.ms start.ms) invalid_interval
  raise_if (ltb_ℤ tolerance_ms (pos 0)) invalid_interval
  ok (record { start = start; end = end; tolerance_ms = pos_part tolerance_ms })

-- `Interval.of`
unfoldable pub interval_of : ℤ → ℤ → ℤ → Result Interval
unfolding monotonic_time interval
interval_of start_ms end_ms tolerance_ms = do
  start ← monotonic_time start_ms
  end ← monotonic_time end_ms
  interval start end tolerance_ms

-- What the constructor guarantees.
abbrev pub IsSpan : Interval → Type 0
IsSpan i = i.start.ms ≤ i.end.ms

unfoldable pub duration_ms : Interval → ℕ
duration_ms i = i.end.ms - i.start.ms

unfoldable pub midpoint : Interval → MonotonicTime
unfolding duration_ms
midpoint i = record { ms = i.start.ms + duration_ms i / 2 }

unfoldable pub overlaps : Interval → Interval → Bool
overlaps i other = ltb i.start.ms other.end.ms && ltb other.start.ms i.end.ms

unfoldable pub gap_to : Interval → Interval → ℕ
unfolding overlaps
gap_to i other =
    if overlaps i other
    then 0
    else if leb i.end.ms other.start.ms
    then other.start.ms - i.end.ms
    else i.start.ms - other.end.ms

unfoldable pub holds_instant : Interval → MonotonicTime → Bool
holds_instant i instant = leb i.start.ms instant.ms && ltb instant.ms i.end.ms
