-- ===== src/Application/Completion/Published.antt =====
-- What a completed session leaves for its readers.
use oratoria_engine.Prelude.{
  ℕ, ◌≡◌, sym, subst, ◌∙◌, ap, String, true, some, lookup-insert_same, string_eq, pair_eq,
  Option-cases, inl, inr, Items-lookup, arith,
}
use oratoria_engine.Shared.Errors.{ok, Result-cases}
use oratoria_engine.Shared.Measurement.{Floats}
use oratoria_engine.Sessions.State.{completed, require_transition}
use oratoria_engine.Sessions.Session.{AnalysisSession, request_completion, mark_completed}
use oratoria_engine.Adapters.SessionStore.{SessionRepository, get, save}
use oratoria_engine.Adapters.EvidenceStore.{
  EvidenceRepository, store, store_document, load_document,
}
use oratoria_engine.Application.Callers.{AuthenticatedCaller, results_read, allows}
use oratoria_engine.Application.Assembly.Document.{Captured, Settings}
use oratoria_engine.Application.Deletion.Promise.{IsFiled}
use oratoria_engine.Application.Queries.{read_result}
use oratoria_engine.Application.Queries.Access.{read_result_iff}
use oratoria_engine.Application.Completion.{
  World, CompletedSession, execute, bundle_of, with_transport_quality,
}

-- The two transitions keep whose session it is.
requested_lem :
    (s s' : AnalysisSession) (wall_ms : ℕ)
    → request_completion s wall_ms ≡ ok s'
    → (s'.tenant_id ≡ s.tenant_id) × (s'.id ≡ s.id)
unfolding request_completion require_transition
requested_lem s s' wall_ms h = (ground arith, ground arith)

marked_lem :
    (s s' : AnalysisSession) (now_ms : ℕ)
    → mark_completed s now_ms ≡ ok s'
    → (s'.tenant_id ≡ s.tenant_id) × (s'.id ≡ s.id) × (s'.state ≡ completed)
unfolding mark_completed require_transition
marked_lem s s' now_ms h = (ground arith, ground arith, ground arith)

stored_document :
    {B D : Type 0} (tenant session_id : String) (d : D) (e : EvidenceRepository B D)
    → load_document tenant session_id (store_document session_id d tenant e) ≡ some d
unfolding load_document store_document
stored_document tenant session_id d e = lookup-insert_same (tenant, session_id) d e.documents

-- Saving twice under one key leaves the second on file.
saved_twice :
    (tenant session_id : String) (s s' : AnalysisSession) (r : SessionRepository)
    → tenant ≡ s'.tenant_id
    → session_id ≡ s'.id
    → get tenant session_id (save s' (save s r)) ≡ some s'
unfolding get save
saved_twice tenant session_id s s' r t i =
    rw (t, i) (lookup-insert_same (s'.tenant_id, s'.id) s' (save s r).sessions)

module _ (fl : Floats) (threshold : fl.F) (divide : ℕ → ℕ → fl.F) (lower : String → String)
    (caller : AuthenticatedCaller) (session_id : String) (state : Captured fl.F)
    (configuration : Settings) (wall_ms now_ms : ℕ) (w w' : World fl.F)
    (c : CompletedSession fl.F) where
  completed_lem :
      execute fl threshold divide lower caller session_id state configuration wall_ms now_ms w
        ≡ (ok c, w')
      → (s : AnalysisSession) × (closing : AnalysisSession) × (get caller.tenant session_id
            w.sessions
          ≡ some s)
        × (request_completion s wall_ms ≡ ok closing)
        × (mark_completed closing now_ms ≡ ok c.session)
        × (w'.sessions ≡ save c.session (save closing w.sessions))
        × (w'.evidence
            ≡ store_document session_id c.document caller.tenant
                (store (bundle_of fl threshold divide lower caller.tenant c.document) w.evidence))
  unfolding execute with_transport_quality
  completed_lem h = elim (Option-cases (get caller.tenant session_id w.sessions)) [
    | inl g ↦ ground (arith, g, h)
    | inr (s, g) ↦ elim (Result-cases (request_completion s wall_ms)) [
      | inl (closing, q) ↦ (
        s,
        closing,
        g,
        q,
        ground (arith, g, q, h),
        ground (arith, g, q, h),
        ground (arith, g, q, h),
      )
      | inr (e, q) ↦ ground (arith, g, q, h)
    ]
  ]

  -- Where sessions are filed under their own keys, a completion that succeeds has published: every caller
  -- of the tenant that may read results reads exactly the document that the completion returned, and the
  -- session on file is the returned one, completed.
  pub completed_is_readable :
      (reader : AuthenticatedCaller)
      → allows reader results_read ≡ true
      → reader.tenant ≡ caller.tenant
      → IsFiled w.sessions
      → execute fl threshold divide lower caller session_id state configuration wall_ms now_ms w
        ≡ (ok c, w')
      → (read_result reader session_id w'.sessions w'.evidence ≡ ok c.document)
        × (get caller.tenant session_id w'.sessions ≡ some c.session)
        × (c.session.state ≡ completed)
  unfolding get
  completed_is_readable reader b t f h =
      let (s, closing, g, q, m, sessions, evidence) = completed_lem h in
      let (t1, i1) = requested_lem s closing wall_ms q in
      let (t2, i2, done) = marked_lem closing c.session now_ms m in
      let filed =
        Items-lookup (λ k u. k ≡ (u.tenant_id, u.id)) (caller.tenant, session_id) s
          w.sessions.sessions f g in
      let tenant = ap (λ k. k.0) filed ∙ sym t1 ∙ sym t2 in
      let id = ap (λ k. k.1) filed ∙ sym i1 ∙ sym i2 in
      let kept : get caller.tenant session_id w'.sessions ≡ some c.session =
        ap (get caller.tenant session_id) sessions
        ∙ saved_twice caller.tenant session_id closing c.session w.sessions tenant id in
      let loaded : load_document caller.tenant session_id w'.evidence ≡ some c.document =
        ap (load_document caller.tenant session_id) evidence
        ∙ stored_document caller.tenant session_id c.document
            (store (bundle_of fl threshold divide lower caller.tenant c.document) w.evidence) in
      let readable = (read_result_iff reader session_id w'.sessions w'.evidence c.document).1 (
        b,
        (c.session, subst (λ x. get x session_id w'.sessions ≡ some c.session) (sym t) kept, done),
        subst (λ x. load_document x session_id w'.evidence ≡ some c.document) (sym t) loaded,
      ) in
      (readable, kept, done)
