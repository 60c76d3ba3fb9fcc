-- ===== src/Adapters/Quotas.antt =====
-- src/evidence_engine/adapters/outbound/cache/in_memory.py: quotas in fixed windows. The reading of
-- the clock is an argument. The text of a refusal is left out.
pub mod Windows
mod Tests
use oratoria_engine.Prelude.{
  ℕ, ◌+◌, ◌-◌, ◌*◌, ◌/◌, ◌%◌, max, String, Bool, true, false, Option, none, some, Dict, lookup,
  insert, ltb, nat_eq, string_eq, pair_eq, if◌then◌else◌,
}
use oratoria_engine.Prelude.Int.{ℤ, pos, negsuc}

-- `remaining` is -1 where no limit is configured.
pub record QuotaDecision : Type 0 where
  pub allowed : Bool
  pub remaining : ℤ
  pub retry_after_seconds : ℕ

pub record QuotaGuard : Type 0 where
  pub limits : Dict String ℕ
  pub window_ms : ℕ
  pub counts : Dict ((String × String) × ℕ) ℕ

abbrev pub key : ℕ → String → String → QuotaGuard → (String × String) × ℕ
key now application unit g = ((application, unit), now / g.window_ms)

abbrev count_of : Option ℕ → ℕ
count_of none = 0
count_of (some n) = n

-- `self._counts[key]`, of a dict whose missing values are 0
unfoldable pub used : ℕ → String → String → QuotaGuard → ℕ
used now application unit g = count_of (lookup (key now application unit g) g.counts)

unfoldable pub seconds_to_window_end : ℕ → QuotaGuard → ℕ
seconds_to_window_end now g = max 1 ((g.window_ms - now % g.window_ms) / 1000)

abbrev decide : Option ℕ → ℕ → ℕ → ℕ → QuotaDecision
decide none amount used retry = record {
  allowed = true;
  remaining = negsuc 0;
  retry_after_seconds = 0;
}
decide (some limit) amount used retry =
    if ltb limit (used + amount)
    then record { allowed = false; remaining = pos (limit - used); retry_after_seconds = retry }
    else record { allowed = true; remaining = pos (limit - used - amount); retry_after_seconds = 0 }

unfoldable pub check : ℕ → String → String → ℕ → QuotaGuard → QuotaDecision
check now application unit amount g =
    decide (lookup unit g.limits) amount (used now application unit g) (seconds_to_window_end now g)

unfoldable pub consume : ℕ → String → String → ℕ → QuotaGuard → QuotaGuard
consume now application unit amount g = record g {
  counts = insert (key now application unit g) (used now application unit g + amount) g.counts;
}
