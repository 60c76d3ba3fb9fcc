-- ===== src/Sessions/State/Tests.antt =====
-- The life of a session that failed, and the theorems at it.
use oratoria_engine.Prelude.{ℕ, refl}
use oratoria_engine.Sessions.State.{
  completing, completed, failed, evidence_deleted, can_transition, same_state,
}
use oratoria_engine.Sessions.State.Lifecycle.{Chain, here, next, deletion_reachable}

closing : Chain 2 completing evidence_deleted
unfolding can_transition same_state
closing = next completing {t = completed} refl (next completed refl (here evidence_deleted))

deletion_reachable_example : (n : ℕ) × Chain n failed evidence_deleted
deletion_reachable_example = deletion_reachable failed
