-- ===== src/Shared/Timeline/Distance.antt =====
-- What `Interval.of`, `gap_to`, `overlaps` and `midpoint` compute, stated over the points of the
-- spans.
use oratoria_engine.Prelude.{ℕ, ◌+◌, ◌≤◌, ◌<◌, ◌≡◌, ◌↔◌, true, arith, leb, if◌then◌else◌}
use oratoria_engine.Prelude.Int.{ℤ, pos, ◌≤ℤ◌}
use oratoria_engine.Shared.Errors.{ok, raised, invalid_interval}
use oratoria_engine.Shared.Timeline.{
  MonotonicTime, Interval, IsSpan, interval_of, overlaps, gap_to, midpoint, holds_instant, abs_diff,
}

-- `Interval.of` succeeds exactly when the span is not negative, not inverted and has no negative
-- tolerance, and then holds the three numbers that it was given.
pub interval_of-ok :
    (s e t : ℤ) (i : Interval)
    → (interval_of s e t ≡ ok i)
      ↔ ((s ≡ pos i.start.ms) × (e ≡ pos i.end.ms) × (t ≡ pos i.tolerance_ms) × IsSpan i)
unfolding interval_of
interval_of-ok s e t i = (λ h. ground arith, λ h. ground arith)

-- The only error is `InvalidInterval`.
pub interval_of_refuses :
    (s e t : ℤ)
    → ¬ ((pos 0 ≤ℤ s) × (s ≤ℤ e) × (pos 0 ≤ℤ t))
    → interval_of s e t ≡ raised invalid_interval
unfolding interval_of
interval_of_refuses s e t h = ground (arith, h)

abbrev Within : ℕ → Interval → Type 0
Within x i = (i.start.ms ≤ x) × (x ≤ i.end.ms)

-- Of two spans, `gap_to` is the least distance between a point of the one and a point of the
-- other: no two points are nearer, and some two are that near.
pub gap_to_least :
    (i j : Interval)
    → IsSpan i
    → IsSpan j
    → ((x y : ℕ) → Within x i → Within y j → gap_to i j ≤ abs_diff x y)
      × ((x : ℕ) × (y : ℕ) × Within x i × Within y j × (abs_diff x y ≡ gap_to i j))
unfolding gap_to
gap_to_least i j hi hj = (
  λ x y wx wy. ground arith,
  (
    if leb i.start.ms j.start.ms
        then (if leb i.end.ms j.start.ms then i.end.ms else j.start.ms)
        else i.start.ms,
    if leb i.start.ms j.start.ms
        then j.start.ms
        else (if leb i.start.ms j.end.ms then i.start.ms else j.end.ms),
    ground arith,
    ground arith,
    ground arith,
  ),
)

-- The gap is the same from either side.
pub gap_to_comm : (i j : Interval) → IsSpan i → IsSpan j → gap_to i j ≡ gap_to j i
unfolding gap_to
gap_to_comm i j hi hj = ground arith

-- Of two spans that have a length, `overlaps` holds exactly when they share an instant.
pub overlaps_iff :
    (i j : Interval)
    → i.start.ms < i.end.ms
    → j.start.ms < j.end.ms
    → (overlaps i j ≡ true)
      ↔ ((t : MonotonicTime) × (holds_instant i t ≡ true) × (holds_instant j t ≡ true))
unfolding overlaps holds_instant
overlaps_iff i j hi hj = (
  λ h. (
    record { ms = if leb i.start.ms j.start.ms then j.start.ms else i.start.ms },
    ground arith,
    ground arith,
  ),
  λ (t, p, q). ground arith,
)

-- The midpoint lies in the span, at most half a millisecond from being equally far from both ends.
pub midpoint_halves :
    (i : Interval)
    → IsSpan i
    → Within (midpoint i).ms i
      × (abs_diff i.start.ms (midpoint i).ms ≤ abs_diff (midpoint i).ms i.end.ms)
      × (abs_diff (midpoint i).ms i.end.ms ≤ abs_diff i.start.ms (midpoint i).ms + 1)
unfolding midpoint
midpoint_halves i h = ground arith
