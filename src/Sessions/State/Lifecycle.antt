-- ===== src/Sessions/State/Lifecycle.antt =====
-- Which lives a session can have: chains of allowed transitions.
use oratoria_engine.Prelude.{ℕ, suc, ◌+◌, ◌≤◌, ◌<◌, ◌≡◌, ◌↔◌, Bool, true, false, refl, arith}
use oratoria_engine.Sessions.State.{
  SessionState, created, capturing, paused, completing, completed, failed, evidence_deleted,
  can_transition, is_terminal, accepts_media,
}

-- A chain of `n` transitions, each of which `can_transition` allows.
pub data Chain : ℕ → SessionState → SessionState → Type 0 where
  here : (s : SessionState) → Chain 0 s s
  next :
      {n : ℕ} (s : SessionState) {t u : SessionState}
      → can_transition s t ≡ true
      → Chain n t u
      → Chain (suc n) s u

-- Capture is over once completion was requested or the session failed.
abbrev pub is_over : SessionState → Bool
is_over created = false
is_over capturing = false
is_over paused = false
is_over _ = true

step_is_over :
    (s t : SessionState) → is_over s ≡ true → can_transition s t ≡ true → is_over t ≡ true
unfolding can_transition
step_is_over s t h k = ground arith

-- Once capture is over no chain of transitions leads to a state that accepts media again.
pub over_never_captures :
    {n : ℕ} {s t : SessionState} → Chain n s t → is_over s ≡ true → accepts_media t ≡ false
unfolding accepts_media
over_never_captures (here s) h = ground arith
over_never_captures (next s {t = t} e c) h = over_never_captures c (step_is_over s t h e)

abbrev remaining : SessionState → ℕ
remaining completing = 2
remaining completed = 1
remaining failed = 1
remaining _ = 0

step_remaining :
    (s t : SessionState) → is_over s ≡ true → can_transition s t ≡ true → remaining t < remaining s
unfolding can_transition
step_remaining s t h k = ground arith

Chain-le-remaining :
    {n : ℕ} {s t : SessionState} → Chain n s t → is_over s ≡ true → n + remaining t ≤ remaining s
Chain-le-remaining (here s) h = omega arith
Chain-le-remaining (next s {t = t} e c) h =
    omega (arith, step_remaining s t h e, Chain-le-remaining c (step_is_over s t h e))

remaining_le : (s : SessionState) → remaining s ≤ 2
remaining_le s = ground arith

-- Once capture is over, at most two transitions remain.
pub over_ends_soon : {n : ℕ} {s t : SessionState} → Chain n s t → is_over s ≡ true → n ≤ 2
over_ends_soon {s = s} c h = omega (arith, Chain-le-remaining c h, remaining_le s)

-- From every state the session can still reach the deletion of its evidence.
pub deletion_reachable : (s : SessionState) → (n : ℕ) × Chain n s evidence_deleted
unfolding can_transition
deletion_reachable created = (1, next created refl (here evidence_deleted))
deletion_reachable capturing =
    (2, next capturing {t = failed} refl (next failed refl (here evidence_deleted)))
deletion_reachable paused =
    (2, next paused {t = failed} refl (next failed refl (here evidence_deleted)))
deletion_reachable completing =
    (2, next completing {t = failed} refl (next failed refl (here evidence_deleted)))
deletion_reachable completed = (1, next completed refl (here evidence_deleted))
deletion_reachable failed = (1, next failed refl (here evidence_deleted))
deletion_reachable evidence_deleted = (0, here evidence_deleted)

-- `is_terminal` names exactly the states that no transition leaves, and the only one is
-- `EVIDENCE_DELETED`.
pub is_terminal_iff :
    (s : SessionState)
    → ((is_terminal s ≡ true) ↔ ((t : SessionState) → can_transition s t ≡ false))
      × ((is_terminal s ≡ true) ↔ (s ≡ evidence_deleted))
unfolding is_terminal can_transition
is_terminal_iff created = ((λ h. cc, λ f. cc (f capturing)), (λ h. cc, λ e. cc))
is_terminal_iff capturing = ((λ h. cc, λ f. cc (f paused)), (λ h. cc, λ e. cc))
is_terminal_iff paused = ((λ h. cc, λ f. cc (f capturing)), (λ h. cc, λ e. cc))
is_terminal_iff completing = ((λ h. cc, λ f. cc (f completed)), (λ h. cc, λ e. cc))
is_terminal_iff completed = ((λ h. cc, λ f. cc (f evidence_deleted)), (λ h. cc, λ e. cc))
is_terminal_iff failed = ((λ h. cc, λ f. cc (f evidence_deleted)), (λ h. cc, λ e. cc))
is_terminal_iff evidence_deleted = ((λ h t. refl, λ f. refl), (λ h. refl, λ e. refl))
