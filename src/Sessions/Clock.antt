-- ===== src/Sessions/Clock.antt =====
-- src/evidence_engine/domain/sessions/clock.py: captured time. Readings of the wall clock are
-- natural numbers, and `max(0, a - b)` of the source is the truncated difference.
use oratoria_engine.Prelude.{ℕ, ◌+◌, ◌-◌, Bool, true, false, Option, none, some}
use oratoria_engine.Shared.Timeline.{MonotonicTime}

pub record SessionClock : Type 0 where
  pub accumulated_ms : ℕ
  pub segment_started_at : Option ℕ

abbrev pub new_clock : SessionClock
new_clock = record { accumulated_ms = 0; segment_started_at = none }

unfoldable pub is_running : SessionClock → Bool
is_running c = elim c.segment_started_at [ none ↦ false | some _ ↦ true ]

unfoldable pub start : SessionClock → ℕ → SessionClock
start c wall_ms = elim c.segment_started_at [
  | none ↦ record { accumulated_ms = c.accumulated_ms; segment_started_at = some wall_ms }
  | some _ ↦ c
]

unfoldable pub pause : SessionClock → ℕ → SessionClock
pause c wall_ms = elim c.segment_started_at [
  | none ↦ c
  | some started ↦ record {
    accumulated_ms = c.accumulated_ms + (wall_ms - started);
    segment_started_at = none;
  }
]

unfoldable pub now : SessionClock → ℕ → MonotonicTime
now c wall_ms = elim c.segment_started_at [
  | none ↦ record { ms = c.accumulated_ms }
  | some started ↦ record { ms = c.accumulated_ms + (wall_ms - started) }
]

unfoldable pub captured_ms : SessionClock → ℕ → ℕ
unfolding now
captured_ms c wall_ms = (now c wall_ms).ms
