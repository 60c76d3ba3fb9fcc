-- ===== src/Application/Queries/Access.antt =====
-- When a document can be read, and that a deletion ends it.
use oratoria_engine.Prelude.{
  ℕ, ◌≡◌, ◌↔◌, refl, sym, subst, String, true, false, some, ◌==◌, Option-cases, inl, inr, arith,
}
use oratoria_engine.Shared.Errors.{ok, raised, result_not_ready}
use oratoria_engine.Sessions.State.{
  SessionState, completed, evidence_deleted, state_eq, same_state, same_state_iff,
}
use oratoria_engine.Sessions.Session.{AnalysisSession, mark_evidence_deleted}
use oratoria_engine.Adapters.SessionStore.{SessionRepository, get}
use oratoria_engine.Adapters.EvidenceStore.{EvidenceRepository, load_document}
use oratoria_engine.Application.Callers.{AuthenticatedCaller, results_read, evidence_delete, allows}
use oratoria_engine.Application.Deletion.{Store, execute}
use oratoria_engine.Application.Deletion.Promise.{IsFiled, execute-IsErased, marked_lem}
use oratoria_engine.Application.Queries.{read_result}

not_deleted : (s : SessionState) → s ≡ completed → (s == evidence_deleted) ≡ false
unfolding same_state
not_deleted s h = rw (h) refl

module _ {B D : Type 0} where
  readable :
      (caller : AuthenticatedCaller) (session_id : String) (sessions : SessionRepository)
      (evidence : EvidenceRepository B D) (d : D)
      → read_result caller session_id sessions evidence ≡ ok d
      → (allows caller results_read ≡ true)
        × ((s : AnalysisSession) × (get caller.tenant session_id sessions ≡ some s)
            × (s.state ≡ completed))
        × (load_document caller.tenant session_id evidence ≡ some d)
  unfolding read_result
  readable caller session_id sessions evidence d h =
      elim (Option-cases (get caller.tenant session_id sessions)) [
        | inl g ↦ ground (arith, g, h)
        | inr (s, g) ↦ (
          ground (arith, h),
          (s, g, ground (arith, g, h, same_state_iff s.state completed)),
          ground (arith, g, h),
        )
      ]

  -- A document is read exactly when the caller may read results, a session of the caller's own tenant
  -- with that identifier is on file and completed, and the document is the one that is stored for that
  -- tenant and session.
  pub read_result_iff :
      (caller : AuthenticatedCaller) (session_id : String) (sessions : SessionRepository)
      (evidence : EvidenceRepository B D) (d : D)
      → (read_result caller session_id sessions evidence ≡ ok d) ↔ (
          (allows caller results_read ≡ true)
          × ((s : AnalysisSession) × (get caller.tenant session_id sessions ≡ some s)
              × (s.state ≡ completed))
          × (load_document caller.tenant session_id evidence ≡ some d))
  unfolding read_result
  read_result_iff caller session_id sessions evidence d = (
    λ h. readable caller session_id sessions evidence d h,
    λ (a, (s, g, c), e).
        rw (a, g, not_deleted s.state c, (same_state_iff s.state completed).1 c, e) refl,
  )

  unreadable :
      (caller : AuthenticatedCaller) (session_id : String) (s : AnalysisSession)
      (sessions : SessionRepository) (evidence : EvidenceRepository B D)
      → allows caller results_read ≡ true
      → get caller.tenant session_id sessions ≡ some s
      → s.state ≡ evidence_deleted
      → read_result caller session_id sessions evidence ≡ raised result_not_ready
  unfolding read_result
  unreadable caller session_id s sessions evidence a g d =
      rw (a, g, (same_state_iff s.state evidence_deleted).1 d) refl

  -- Where sessions are filed under their own keys, after the deletion of a session that may be marked as
  -- deleted, every caller of that tenant that may read results is told that there is no result, though
  -- the session is still on file.
  pub deleted_is_unreadable :
      (caller reader : AuthenticatedCaller) (session_id : String) (now_ms : ℕ) (w : Store B D)
      (s s' : AnalysisSession)
      → allows caller evidence_delete ≡ true
      → allows reader results_read ≡ true
      → reader.tenant ≡ caller.tenant
      → IsFiled w.sessions
      → get caller.tenant session_id w.sessions ≡ some s
      → (s.state == evidence_deleted) ≡ false
      → mark_evidence_deleted s now_ms ≡ ok s'
      → let after = (execute caller session_id now_ms w).1 in
        read_result reader session_id after.sessions after.evidence ≡ raised result_not_ready
  deleted_is_unreadable caller reader session_id now_ms w s s' a b t f g n m =
      let (r, w', e, gone, check, kept, log) =
        execute-IsErased caller session_id now_ms w s s' a f g n m in
      let there = subst (λ tenant. get tenant session_id w'.sessions ≡ some s') (sym t) kept in
      let (t', i, d) = marked_lem s s' now_ms m in
      rw (e) (unreadable reader session_id s' w'.sessions w'.evidence b there d)
