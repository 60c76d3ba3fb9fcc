-- ===== src/Sessions/Session/Timing.antt =====
-- Captured time over a whole history of a session, against the sum of the stretches in which it
-- accepted media.
use oratoria_engine.Prelude.{
  ℕ, ◌+◌, ◌-◌, ◌≤◌, ◌≡◌, Option, none, some, List, [], ◌∷◌, arith, if◌then◌else◌, inl, inr,
}
use oratoria_engine.Shared.Errors.{Result, ok, raised, Result-cases}
use oratoria_engine.Sessions.Clock
use oratoria_engine.Sessions.Session.{
  AnalysisSession, begin_capture, pause_capture, resume_capture, request_completion, mark_completed,
  fail, mark_evidence_deleted, accepts_media, captured_ms,
}
use oratoria_engine.Sessions.Session.Steps.{
  Op, begin, pause, resume, complete, mark, fails, delete, step, IsConsistent, step-IsConsistent,
}

abbrev StartedBy : Option ℕ → ℕ → Type 0
StartedBy none w = Unit
StartedBy (some t) w = t ≤ w

-- The running segment began at or before the reading `w`.
pub record IsTimed (s : AnalysisSession) (w : ℕ) : Type 0 where
  pub consistent : IsConsistent s
  pub began : StartedBy s.clock.segment_started_at w

-- A transition moves no time: the session clock stands after it where it stood before.
captured_ms-step :
    (op : Op) (s : AnalysisSession) (w : ℕ) {t : AnalysisSession}
    → step op s w ≡ ok t
    → captured_ms t w ≡ captured_ms s w
unfolding step captured_ms
captured_ms-step begin s w h = unfold begin_capture in ground arith
captured_ms-step pause s w h = unfold pause_capture in ground arith
captured_ms-step resume s w h = unfold resume_capture in ground arith
captured_ms-step complete s w h = unfold request_completion in ground arith
captured_ms-step mark s w h = unfold mark_completed in ground arith
captured_ms-step fails s w h = unfold fail in ground arith
captured_ms-step delete s w h = unfold mark_evidence_deleted in ground arith

began-step :
    (op : Op) (s : AnalysisSession) (w : ℕ) {t : AnalysisSession}
    → step op s w ≡ ok t
    → StartedBy s.clock.segment_started_at w
    → StartedBy t.clock.segment_started_at w
unfolding step
began-step begin s w h b = unfold begin_capture in ground arith
began-step pause s w h b = unfold pause_capture in ground arith
began-step resume s w h b = unfold resume_capture in ground arith
began-step complete s w h b = unfold request_completion in ground arith
began-step mark s w h b = unfold mark_completed in ground arith
began-step fails s w h b = unfold fail in ground arith
began-step delete s w h b = unfold mark_evidence_deleted in ground arith

abbrev elapsed : AnalysisSession → ℕ → ℕ → ℕ
elapsed s w w' = if accepts_media s then w' - w else 0

captured_ms_advances :
    (s : AnalysisSession) (w w' : ℕ)
    → IsTimed s w
    → w ≤ w'
    → captured_ms s w' ≡ captured_ms s w + elapsed s w w'
unfolding captured_ms Clock.is_running
captured_ms_advances s w w' t h = ground (arith, t.consistent.running, t.began)

began_later : (o : Option ℕ) (w w' : ℕ) → StartedBy o w → w ≤ w' → StartedBy o w'
began_later none w w' b h = tt
began_later (some t) w w' b h = omega arith

-- A request that raises leaves the stored session as it was.
abbrev pub or_same : Result AnalysisSession → AnalysisSession → AnalysisSession
or_same (ok t) s = t
or_same (raised e) s = s

-- The session after a history of requests, each with the reading of the wall clock it came at.
unfoldable pub run : List (Op × ℕ) → AnalysisSession → AnalysisSession
run [] s = s
run ((op, w) ∷ h) s = run h (or_same (step op s w) s)

-- The time from `w` to the end in which the session accepted media, stretch by stretch.
unfoldable pub accepted_ms : List (Op × ℕ) → AnalysisSession → ℕ → ℕ → ℕ
accepted_ms [] s w end = elapsed s w end
accepted_ms ((op, w') ∷ h) s w end =
    elapsed s w w' + accepted_ms h (or_same (step op s w') s) w' end

-- Readings that never go back, from `w` to the end.
abbrev pub IsForward : List (Op × ℕ) → ℕ → ℕ → Type 0
IsForward [] w end = w ≤ end
IsForward ((op, w') ∷ h) w end = (w ≤ w') × IsForward h w' end

or_same-IsTimed :
    (op : Op) (s : AnalysisSession) (w w' : ℕ)
    → IsTimed s w
    → w ≤ w'
    → IsTimed (or_same (step op s w') s) w'
or_same-IsTimed op s w w' t h = elim (Result-cases (step op s w')) [
  | inl (u, e) ↦ rw e (record {
    consistent = step-IsConsistent op s w' e t.consistent;
    began = began-step op s w' e (began_later s.clock.segment_started_at w w' t.began h);
  })
  | inr (x, e) ↦ rw e (record {
    consistent = t.consistent;
    began = began_later s.clock.segment_started_at w w' t.began h;
  })
]

captured_ms-or_same :
    (op : Op) (s : AnalysisSession) (w : ℕ)
    → captured_ms (or_same (step op s w) s) w ≡ captured_ms s w
captured_ms-or_same op s w = elim (Result-cases (step op s w)) [
  | inl (u, e) ↦ rw e (captured_ms-step op s w e)
  | inr (x, e) ↦ rw e
]

-- Over any history of requests, failing ones included, whose readings never go back, the captured
-- time grows by exactly the total of the stretches in which the session accepted media: no pause
-- is counted, and no captured time is lost.
pub captured_ms-run :
    (h : List (Op × ℕ)) (s : AnalysisSession) (w end : ℕ)
    → IsTimed s w
    → IsForward h w end
    → captured_ms (run h s) end ≡ captured_ms s w + accepted_ms h s w end
unfolding run accepted_ms
captured_ms-run [] s w end t f = captured_ms_advances s w end t f
captured_ms-run ((op, w') ∷ h) s w end t f = omega (
  arith,
  captured_ms-run h (or_same (step op s w') s) w' end (or_same-IsTimed op s w w' t f.0) f.1,
  captured_ms-or_same op s w',
  captured_ms_advances s w w' t f.0,
)
