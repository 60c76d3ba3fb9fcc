-- ===== src/Application/Creation/Replay.antt =====
-- A request that is refused, and one that is sent again with its idempotency key.
use oratoria_engine.Prelude.{
  String, true, none, some, [], ◌∷◌, Dict, lookup, insert, lookup-insert_same, ==-refl, string_eq,
  pair_eq, ◌≡◌, refl, sym, subst, inl, inr, Bool-cases, arith,
}
use oratoria_engine.Shared.Errors.{Error, ok, raised, Result-cases}
use oratoria_engine.Sessions.Session.{AnalysisSession, with_consent}
use oratoria_engine.Adapters.SessionStore.{
  SessionRepository, save, find_by_idempotency_key, claim_idempotency_key, held_by,
}
use oratoria_engine.Application.Callers.{AuthenticatedCaller, allows, sessions_write}
use oratoria_engine.Application.Requests.{CreateSessionCommand, Readings, new_session}
use oratoria_engine.Application.Creation.{
  World, StreamGrant, CreatedSession, claim_step, finish_step, replay, execute, granted,
}

-- A session is found by its identifier and application once it is stored.
held_by-insert :
    (application : String) (k : String × String) (s : AnalysisSession)
    (d : Dict (String × String) AnalysisSession)
    → s.application_id ≡ application
    → held_by application s.id d ≡ none
    → held_by application s.id (insert k s d) ≡ some s
unfolding insert
held_by-insert application k s [] a h = rw (a, ==-refl s.id, ==-refl application) refl
held_by-insert application k s ((j, t) ∷ d) a h =
    let rest = held_by-insert application k s d a in
    ground (arith, a, h, ==-refl s.id, ==-refl application, rest)

pub new_session_lem :
    (caller : AuthenticatedCaller) (command : CreateSessionCommand) (rd : Readings)
    (s : AnalysisSession)
    → new_session caller command rd ≡ ok s
    → (s.id ≡ rd.session_id) × (s.application_id ≡ caller.application)
unfolding new_session with_consent
new_session_lem caller command rd s h = ground arith

module _ (mint : StreamGrant → String) (caller : AuthenticatedCaller)
    (command : CreateSessionCommand) (rd : Readings) where
  -- A request to create a session that raises, whatever the reason, has written nothing to any of the
  -- stores.
  pub refused_keeps_world :
      (w w' : World) (e : Error) → execute mint caller command rd w ≡ (raised e, w') → w' ≡ w
  unfolding execute claim_step finish_step
  refused_keeps_world w w' e h = ground arith

  allowed_lem :
      (created : CreatedSession) (w w' : World)
      → execute mint caller command rd w ≡ (ok created, w')
      → allows caller sessions_write ≡ true
  unfolding execute
  allowed_lem created w w' h = ground arith

  module _ (key : String) (k : command.idempotency_key ≡ some key) where
    abbrev entered : World → SessionRepository
    entered w = record w.sessions {
      idempotency = insert (caller.application, key) rd.session_id w.sessions.idempotency;
    }

    created_lem :
        (created : CreatedSession) (w w' : World)
        → lookup (caller.application, key) w.sessions.idempotency ≡ none
        → execute mint caller command rd w ≡ (ok created, w')
        → (new_session caller command rd ≡ ok created.session)
          × (w'.sessions ≡ save created.session (entered w))
    unfolding execute claim_step finish_step replay find_by_idempotency_key claim_idempotency_key
    created_lem created w w' free h = elim (Bool-cases (allows caller sessions_write)) [
      | inl a ↦ elim (Result-cases (new_session caller command rd)) [
        | inl (s, n) ↦ ground (arith, k, free, h, a)
        | inr (e, n) ↦ ground (arith, k, free, h, a)
      ]
      | inr a ↦ ground (arith, k, free, h, a)
    ]

    found_after :
        (s : AnalysisSession) (w : World)
        → new_session caller command rd ≡ ok s
        → held_by caller.application rd.session_id w.sessions.sessions ≡ none
        → find_by_idempotency_key caller.application key (save s (entered w)) ≡ some s
    unfolding find_by_idempotency_key save
    found_after s w n fresh =
        let (i, a) = new_session_lem caller command rd s n in
        let absent =
          subst (λ id. held_by caller.application id w.sessions.sessions ≡ none) (sym i) fresh in
        let entry =
          lookup-insert_same (caller.application, key) rd.session_id w.sessions.idempotency in
        let held =
          held_by-insert caller.application (s.tenant_id, s.id) s w.sessions.sessions a absent in
        rw (entry) (
          subst
            (λ id.
              held_by caller.application id (insert (s.tenant_id, s.id) s w.sessions.sessions)
              ≡ some s)
            i held)

  -- A request whose key is free, under an identifier that the application does not use yet, has
  -- created a session. The same request, sent again with other readings, returns that session and a
  -- token for it, and changes nothing.
  pub retried_returns_first :
      (key : String) (rd' : Readings) (created : CreatedSession) (w w' : World)
      → command.idempotency_key ≡ some key
      → lookup (caller.application, key) w.sessions.idempotency ≡ none
      → held_by caller.application rd.session_id w.sessions.sessions ≡ none
      → execute mint caller command rd w ≡ (ok created, w')
      → execute mint caller command rd' w'
        ≡ (ok (granted mint caller rd'.replay_ms true created.session), w')
  unfolding execute replay
  retried_returns_first key rd' created w w' k free fresh h =
      let (n, stored) = created_lem key k created w w' free h in
      let found = found_after key k created.session w n fresh in
      rw (allowed_lem created w w' h, k, stored, found) refl
