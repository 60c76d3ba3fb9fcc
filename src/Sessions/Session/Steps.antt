-- ===== src/Sessions/Session/Steps.antt =====
-- The transitions of a session as one step, and the invariant that they keep: the clock runs
-- exactly while media is accepted, media is accepted only under live consent, and a session whose
-- evidence is deleted has no live consent.
use oratoria_engine.Prelude.{
  ℕ, ◌≡◌, Bool, true, false, not, ◌||◌, Option, none, some, arith, ◌==◌, inl, inr,
}
use oratoria_engine.Shared.Errors.{Result, ok, Result-cases}
use oratoria_engine.Sessions.State
use oratoria_engine.Sessions.State.{SessionState, evidence_deleted, state_eq}
use oratoria_engine.Sessions.Clock
use oratoria_engine.Sessions.Consent.{ConsentReceipt, is_active, withdraw}
use oratoria_engine.Sessions.Session.{
  AnalysisSession, begin_capture, pause_capture, resume_capture, request_completion, mark_completed,
  fail, mark_evidence_deleted, accepts_media, withdrawn,
}

pub data Op : Type 0 where
  begin pause resume complete mark fails delete : Op

unfoldable pub step : Op → AnalysisSession → ℕ → Result AnalysisSession
step begin = begin_capture
step pause = pause_capture
step resume = resume_capture
step complete = request_completion
step mark = mark_completed
step fails = fail
step delete = mark_evidence_deleted

abbrev pub has_live_consent : Option ConsentReceipt → Bool
has_live_consent none = false
has_live_consent (some r) = is_active r

pub record IsConsistent (s : AnalysisSession) : Type 0 where
  pub running : Clock.is_running s.clock ≡ accepts_media s
  pub gated : (not (accepts_media s) || has_live_consent s.consent) ≡ true
  pub erased : (not (s.state == evidence_deleted) || not (has_live_consent s.consent)) ≡ true

withdraw-inactive :
    (r : ConsentReceipt) (w : ℕ) {r' : ConsentReceipt} → withdraw r w ≡ ok r' → is_active r' ≡ false
unfolding withdraw is_active
withdraw-inactive r w h = ground arith

withdrawn-inactive :
    (c : Option ConsentReceipt) (w : ℕ) {c' : Option ConsentReceipt}
    → withdrawn c w ≡ ok c'
    → has_live_consent c' ≡ false
unfolding withdrawn
withdrawn-inactive none w h = ground arith
withdrawn-inactive (some r) w h = elim (Result-cases (withdraw r w)) [
  | inl (r', e) ↦ ground (arith, e, withdraw-inactive r w e)
  | inr (x, e) ↦ ground (arith, e)
]

module _ (s : AnalysisSession) (w : ℕ) {t : AnalysisSession} where
  begin-IsConsistent : begin_capture s w ≡ ok t → IsConsistent s → IsConsistent t
  unfolding begin_capture accepts_media State.same_state Clock.is_running is_active
  begin-IsConsistent h c = ground arith

  resume-IsConsistent : resume_capture s w ≡ ok t → IsConsistent s → IsConsistent t
  unfolding resume_capture accepts_media State.same_state Clock.is_running is_active
  resume-IsConsistent h c = ground arith

  pause-IsConsistent : pause_capture s w ≡ ok t → IsConsistent s → IsConsistent t
  unfolding pause_capture accepts_media State.same_state Clock.is_running
  pause-IsConsistent h c = ground arith

  complete-IsConsistent : request_completion s w ≡ ok t → IsConsistent s → IsConsistent t
  unfolding request_completion accepts_media State.same_state Clock.is_running
  complete-IsConsistent h c = ground arith

  mark-IsConsistent : mark_completed s w ≡ ok t → IsConsistent s → IsConsistent t
  unfolding mark_completed accepts_media State.same_state Clock.is_running
  mark-IsConsistent h c = ground arith

  fails-IsConsistent : fail s w ≡ ok t → IsConsistent s → IsConsistent t
  unfolding fail accepts_media State.same_state Clock.is_running
  fails-IsConsistent h c = ground arith

  delete-IsConsistent : mark_evidence_deleted s w ≡ ok t → IsConsistent s → IsConsistent t
  unfolding mark_evidence_deleted accepts_media State.same_state Clock.is_running
  delete-IsConsistent h c = elim (Result-cases (withdrawn s.consent w)) [
    | inl (r, e) ↦ ground (arith, e, withdrawn-inactive s.consent w e)
    | inr (x, e) ↦ ground (arith, e)
  ]

-- Every transition that succeeds keeps the invariant: the clock runs exactly while media is
-- accepted, media is accepted only under live consent, and once the evidence is deleted no consent
-- is live.
pub step-IsConsistent :
    (op : Op) (s : AnalysisSession) (w : ℕ) {t : AnalysisSession}
    → step op s w ≡ ok t
    → IsConsistent s
    → IsConsistent t
unfolding step
step-IsConsistent begin s w h c = begin-IsConsistent s w h c
step-IsConsistent pause s w h c = pause-IsConsistent s w h c
step-IsConsistent resume s w h c = resume-IsConsistent s w h c
step-IsConsistent complete s w h c = complete-IsConsistent s w h c
step-IsConsistent mark s w h c = mark-IsConsistent s w h c
step-IsConsistent fails s w h c = fails-IsConsistent s w h c
step-IsConsistent delete s w h c = delete-IsConsistent s w h c
