-- ===== src/Application/Deletion/Promise.antt =====
-- The promise of a deletion: what it removes, that it can be verified, and that it can be repeated.
use oratoria_engine.Prelude.{
  ℕ, ◌≡◌, refl, sym, subst, ◌∙◌, inl, inr, String, true, false, [], ◌∷◌, ◌++◌, some, lookup, insert,
  lookup-insert_same, Items, Items-lookup, Items-insert, arith, ◌==◌, string_eq, pair_eq,
  Bool-cases,
}
use oratoria_engine.Shared.Errors.{Result-cases, ok}
use oratoria_engine.Sessions.State.{
  evidence_deleted, can_transition, state_eq, same_state, require_transition,
}
use oratoria_engine.Sessions.Session.{AnalysisSession, mark_evidence_deleted, withdrawn}
use oratoria_engine.Adapters.Media.{count_for_session}
use oratoria_engine.Adapters.SessionStore.{SessionRepository, get, save}
use oratoria_engine.Application.Callers.{AuthenticatedCaller, evidence_delete, allows}
use oratoria_engine.Application.Deletion.{
  Store, DeletionReceipt, execute, verify, already_deleted, deletion_record,
}
use oratoria_engine.Application.Deletion.Erased.{
  IsErased, emptied-IsErased, tally_none, finished, receipt, execute_lem,
}

-- Each session is filed under its own tenant and identifier.
abbrev pub IsFiled : SessionRepository → Type 0
IsFiled r = Items (λ k s. k ≡ (s.tenant_id, s.id)) r.sessions

pub save-IsFiled : (s : AnalysisSession) (r : SessionRepository) → IsFiled r → IsFiled (save s r)
unfolding save
save-IsFiled s r h =
    Items-insert (λ k t. k ≡ (t.tenant_id, t.id)) (s.tenant_id, s.id) s r.sessions refl h

-- Marking a session changes neither its tenant nor its identifier.
pub marked_lem :
    (s s' : AnalysisSession) (now_ms : ℕ)
    → mark_evidence_deleted s now_ms ≡ ok s'
    → (s'.tenant_id ≡ s.tenant_id) × (s'.id ≡ s.id) × (s'.state ≡ evidence_deleted)
unfolding mark_evidence_deleted require_transition
marked_lem s s' now_ms h = elim (Result-cases (withdrawn s.consent now_ms)) [
  | inl (c, e) ↦ elim (Bool-cases (can_transition s.state evidence_deleted)) [
    | inl b ↦ ground (arith, e, b, h)
    | inr b ↦ ground (arith, e, b, h)
  ]
  | inr (c, e) ↦ elim (Bool-cases (can_transition s.state evidence_deleted)) [
    | inl b ↦ ground (arith, e, b, h)
    | inr b ↦ ground (arith, e, b, h)
  ]
]

module _ {B D : Type 0} (caller : AuthenticatedCaller) (session_id : String) where
  pub verify-true :
      (now_ms : ℕ) (w : Store B D)
      → allows caller evidence_delete ≡ true
      → IsErased caller.tenant session_id w
      → verify caller session_id now_ms w ≡ (ok true, w)
  unfolding verify count_for_session
  verify-true now_ms w a h =
      rw (a, tally_none now_ms caller.tenant session_id w.media.objects h.0) refl

  execute_deleted :
      (now_ms : ℕ) (w : Store B D) (s : AnalysisSession)
      → allows caller evidence_delete ≡ true
      → get caller.tenant session_id w.sessions ≡ some s
      → (s.state == evidence_deleted) ≡ true
      → execute caller session_id now_ms w ≡ (ok (already_deleted session_id), w)
  unfolding execute
  execute_deleted now_ms w s a g d = rw (a, g, d) refl

  module _ (now_ms : ℕ) (w : Store B D) (s s' : AnalysisSession) where
    filed_after :
        IsFiled w.sessions
        → get caller.tenant session_id w.sessions ≡ some s
        → mark_evidence_deleted s now_ms ≡ ok s'
        → get caller.tenant session_id (save s' w.sessions) ≡ some s'
    unfolding get save
    filed_after f g m =
        let (t, i, d) = marked_lem s s' now_ms m in
        let filed =
          Items-lookup (λ k u. k ≡ (u.tenant_id, u.id)) (caller.tenant, session_id) s
            w.sessions.sessions f g in
        subst (λ k. lookup k (insert (s'.tenant_id, s'.id) s' w.sessions.sessions) ≡ some s')
          (sym (filed ∙ ground (arith, t, i)))
          (lookup-insert_same (s'.tenant_id, s'.id) s' w.sessions.sessions)

    -- Where sessions are filed under their own keys, a caller with the deletion scope that asks for
    -- a session of its tenant, not deleted yet and such that marking it deleted is allowed, always
    -- gets a receipt, whatever the retention policy in the session's consent, one that lets derived
    -- aggregates be kept included. Afterwards no media object, bundle, document, signature,
    -- snapshot or lease of the session is left in the stores, the check for remaining media says so at
    -- any later time, the session on file is the marked one, and the audit log has exactly one record
    -- more, with the receipt's two counts.
    pub execute-IsErased :
        allows caller evidence_delete ≡ true
        → IsFiled w.sessions
        → get caller.tenant session_id w.sessions ≡ some s
        → (s.state == evidence_deleted) ≡ false
        → mark_evidence_deleted s now_ms ≡ ok s'
        → (r : DeletionReceipt) × (w' : Store B D) × (execute caller session_id now_ms w
            ≡ (ok r, w'))
          × IsErased caller.tenant session_id w'
          × ((later : ℕ) → verify caller session_id later w' ≡ (ok true, w'))
          × (get caller.tenant session_id w'.sessions ≡ some s')
          × (w'.audit
              ≡ w.audit
                ++ deletion_record caller session_id now_ms r.media_objects_deleted
                    r.evidence_records_deleted
                  ∷ [])
    execute-IsErased a f g n m =
        let gone = emptied-IsErased caller.tenant session_id w in
        (
          receipt caller session_id now_ms w s,
          finished caller session_id now_ms w s s',
          execute_lem caller session_id now_ms w s s' a g n m,
          gone,
          (λ later. verify-true later (finished caller session_id now_ms w s s') a gone),
          filed_after f g m,
          refl,
        )

    -- Asking again is harmless: after such a deletion the same request, at any later time, answers
    -- that the session was already deleted and changes nothing at all.
    pub execute_again :
        (later : ℕ)
        → allows caller evidence_delete ≡ true
        → IsFiled w.sessions
        → get caller.tenant session_id w.sessions ≡ some s
        → (s.state == evidence_deleted) ≡ false
        → mark_evidence_deleted s now_ms ≡ ok s'
        → let w' = (execute caller session_id now_ms w).1 in
          execute caller session_id later w' ≡ (ok (already_deleted session_id), w')
    unfolding same_state
    execute_again later a f g n m =
        let (t, i, d) = marked_lem s s' now_ms m in
        rw (execute_lem caller session_id now_ms w s s' a g n m) (
          execute_deleted later (finished caller session_id now_ms w s s') s' a (filed_after f g m)
            (subst (λ x. (x == evidence_deleted) ≡ true) (sym d) refl))
