-- ===== src/Adapters/Streaming.antt =====
-- src/evidence_engine/adapters/outbound/cache/in_memory.py: the ephemeral state of a live session
-- and the lease on it. The reading of the clock is an argument.
pub mod Leases
use oratoria_engine.Prelude.{
  ℕ, ◌+◌, ◌*◌, String, Bool, true, false, Option, none, some, Dict, lookup, insert, erase, ltb, leb,
  string_eq, if◌then◌else◌,
}
use oratoria_engine.Prelude.{List}
use oratoria_engine.Prelude.Int.{ℤ}
use oratoria_engine.Sessions.Sequencing.{SequenceGap}

pub record StreamSnapshot : Type 0 where
  pub session_id : String
  pub highest_audio_seq : ℤ
  pub highest_video_seq : ℤ
  pub finalized_through_ms : ℕ
  pub queue_depth : ℕ
  pub gaps : List SequenceGap

pub record StreamState : Type 0 where
  pub snapshots : Dict String (StreamSnapshot × ℕ)
  pub leases : Dict String ℕ

abbrev load_at :
    ℕ → String → Option (StreamSnapshot × ℕ) → StreamState → Option StreamSnapshot × StreamState
load_at now session_id none s = (none, s)
load_at now session_id (some (snapshot, expires_at)) s =
    if leb expires_at now
    then (none, record s { snapshots = erase session_id s.snapshots })
    else (some snapshot, s)

unfoldable pub load : ℕ → String → StreamState → Option StreamSnapshot × StreamState
load now session_id s = load_at now session_id (lookup session_id s.snapshots) s

unfoldable pub save : ℕ → StreamSnapshot → ℕ → StreamState → StreamState
save now snapshot ttl_seconds s = record s {
  snapshots = insert snapshot.session_id (snapshot, now + ttl_seconds * 1000) s.snapshots;
}

unfoldable pub clear : String → StreamState → StreamState
clear session_id s = record s {
  snapshots = erase session_id s.snapshots;
  leases = erase session_id s.leases;
}

-- `held_until is not None and now < held_until`
abbrev pub is_held : ℕ → Option ℕ → Bool
is_held now none = false
is_held now (some held_until) = ltb now held_until

unfoldable pub acquire_lease : ℕ → String → ℕ → StreamState → Bool × StreamState
acquire_lease now session_id ttl_seconds s =
    if is_held now (lookup session_id s.leases)
    then (false, s)
    else (true, record s { leases = insert session_id (now + ttl_seconds * 1000) s.leases })

unfoldable pub release_lease : String → StreamState → StreamState
release_lease session_id s = record s { leases = erase session_id s.leases }
