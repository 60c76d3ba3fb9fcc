-- ===== src/Sessions/State.antt =====
-- src/evidence_engine/domain/sessions/state.py: the lifecycle as an explicit state machine.
pub mod Lifecycle
mod Tests
use oratoria_engine.Prelude.{
  ℕ, ◌≡◌, ◌↔◌, Bool, true, false, not, List, [], ◌∷◌, eqb, arith, Eq, ◌==◌, contains,
}
use oratoria_engine.Shared.Errors.{Result, ok, illegal_session_transition, raise_if, ◌>>=◌, ◌>>◌}

pub data SessionMode : Type 0 where
  realtime batch : SessionMode

pub data SessionState : Type 0 where
  created capturing paused completing completed failed evidence_deleted : SessionState

state_index : SessionState → ℕ
state_index created = 0
state_index capturing = 1
state_index paused = 2
state_index completing = 3
state_index completed = 4
state_index failed = 5
state_index evidence_deleted = 6

unfoldable pub same_state : SessionState → SessionState → Bool
unfolding state_index
same_state s t = eqb (state_index s) (state_index t)

pub same_state_iff : (s t : SessionState) → (same_state s t ≡ true) ↔ (s ≡ t)
unfolding same_state
same_state_iff s t = ground arith

instance abbrev pub state_eq : Eq SessionState
state_eq = record { beq = same_state; beq_iff = same_state_iff }

-- `_ALLOWED`
allowed : SessionState → List SessionState
allowed created = capturing ∷ failed ∷ evidence_deleted ∷ []
allowed capturing = paused ∷ completing ∷ failed ∷ []
allowed paused = capturing ∷ completing ∷ failed ∷ []
allowed completing = completed ∷ failed ∷ []
allowed completed = evidence_deleted ∷ []
allowed failed = evidence_deleted ∷ []
allowed evidence_deleted = []

unfoldable pub can_transition : SessionState → SessionState → Bool
unfolding allowed same_state
can_transition source target = contains target (allowed source)

unfoldable pub require_transition : SessionState → SessionState → Result SessionState
unfolding can_transition
require_transition source target = do
  raise_if (not (can_transition source target)) illegal_session_transition
  ok target

abbrev is_empty : List SessionState → Bool
is_empty [] = true
is_empty (s ∷ l) = false

unfoldable pub is_terminal : SessionState → Bool
unfolding allowed
is_terminal state = is_empty (allowed state)

unfoldable pub accepts_media : SessionState → Bool
unfolding same_state
accepts_media state = state == capturing
