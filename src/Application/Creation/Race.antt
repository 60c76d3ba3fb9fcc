-- ===== src/Application/Creation/Race.antt =====
-- Two requests with one idempotency key, when one loses the claim before the other has stored its
-- session.
use oratoria_engine.Prelude.{
  String, false, Option, none, some, lookup, insert, lookup-insert, lookup-insert_same, ◌==◌,
  string_eq, pair_eq, ◌≡◌, refl, ap, ◌∙◌, arith,
}
use oratoria_engine.Shared.Errors.{Result, ok, raised}
use oratoria_engine.Sessions.Session.{AnalysisSession}
use oratoria_engine.Adapters.SessionStore.{
  SessionRepository, get, save, find_by_idempotency_key, claim_idempotency_key, held_by,
}
use oratoria_engine.Application.Callers.{AuthenticatedCaller}
use oratoria_engine.Application.Requests.{CreateSessionCommand, Readings, new_session}
use oratoria_engine.Application.Creation.Replay.{new_session_lem}
use oratoria_engine.Application.Creation.{
  World, StreamGrant, CreatedSession, claim_step, finish_step, replay, or_finish,
}

get_saved : (s : AnalysisSession) (r : SessionRepository) → get s.tenant_id s.id (save s r) ≡ some s
unfolding get save
get_saved s r = lookup-insert_same (s.tenant_id, s.id) s r.sessions

get_other :
    (s : AnalysisSession) (r : SessionRepository) (tenant id : String)
    → (s.id == id) ≡ false
    → get tenant id (save s r) ≡ get tenant id r
unfolding get save
get_other s r tenant id h =
    ground (arith, lookup-insert (s.tenant_id, s.id) (tenant, id) s r.sessions)

find_absent :
    (application key id : String) (r : SessionRepository)
    → lookup (application, key) r.idempotency ≡ some id
    → held_by application id r.sessions ≡ none
    → find_by_idempotency_key application key r ≡ none
unfolding find_by_idempotency_key
find_absent application key id r taken absent = rw (taken) absent

module _ (mint : StreamGrant → String) (caller : AuthenticatedCaller)
    (command : CreateSessionCommand) where
  abbrev goes_on : Readings → AnalysisSession → Result (Option CreatedSession) → World → World
  goes_on rd session (ok other) w = (or_finish mint caller command rd session other w).1
  goes_on rd session (raised e) w = w

  -- The first request claims, the second loses the claim and looks for the session of the first, the
  -- first stores its session, and the second goes on.
  abbrev pub interleaved : Readings → AnalysisSession → Readings → AnalysisSession → World → World
  interleaved r s r' s' w =
      let claimed_first = (claim_step mint caller command r w).1 in
      let (answer, looked) = claim_step mint caller command r' claimed_first in
      goes_on r' s' answer (finish_step mint caller command r s looked).1

  module _ (key : String) (k : command.idempotency_key ≡ some key) where
    abbrev entry_of : World → Option String
    entry_of w = lookup (caller.application, key) w.sessions.idempotency

    abbrev with_key : Readings → World → World
    with_key r w = record w {
      sessions = record w.sessions {
        idempotency = insert (caller.application, key) r.session_id w.sessions.idempotency;
      };
    }

    claim_free :
        (r : Readings) (w : World)
        → entry_of w ≡ none
        → claim_step mint caller command r w ≡ (ok none, with_key r w)
    unfolding claim_step claim_idempotency_key
    claim_free r w free = rw (k, free) refl

    claim_taken :
        (r : Readings) (w : World) (id : String)
        → entry_of w ≡ some id
        → held_by caller.application id w.sessions.sessions ≡ none
        → claim_step mint caller command r w ≡ (ok none, w)
    unfolding claim_step claim_idempotency_key replay
    claim_taken r w id taken absent =
        rw (k, taken, find_absent caller.application key id w.sessions taken absent) refl

    stored :
        (r : Readings) (s : AnalysisSession) (w : World)
        → (finish_step mint caller command r s w).1.sessions ≡ save s w.sessions
    unfolding finish_step
    stored r s w = refl

    interleaved-stores :
        (r r' : Readings) (s s' : AnalysisSession) (w : World)
        → entry_of w ≡ none
        → held_by caller.application r.session_id w.sessions.sessions ≡ none
        → (interleaved r s r' s' w).sessions ≡ save s' (save s (with_key r w).sessions)
    interleaved-stores r r' s s' w free absent =
        let taken =
          lookup-insert_same (caller.application, key) r.session_id w.sessions.idempotency in
        rw (claim_free r w free, claim_taken r' (with_key r w) r.session_id taken absent)
          (stored r' s' (finish_step mint caller command r s (with_key r w)).1
            ∙ ap (save s') (stored r s (with_key r w)))

  -- Two requests with one key, which is not claimed yet, have passed their checks and opened the sessions
  -- `s` and `s'` under different identifiers, the first of which the application does not use. When the
  -- second loses the claim before the first has stored its session, both sessions are stored, so that one
  -- key has made two.
  pub race_makes_two :
      (key : String) (r r' : Readings) (s s' : AnalysisSession) (w : World)
      → command.idempotency_key ≡ some key
      → new_session caller command r ≡ ok s
      → new_session caller command r' ≡ ok s'
      → (r'.session_id == r.session_id) ≡ false
      → lookup (caller.application, key) w.sessions.idempotency ≡ none
      → held_by caller.application r.session_id w.sessions.sessions ≡ none
      → let after = (interleaved r s r' s' w).sessions in
        (get s.tenant_id s.id after ≡ some s) × (get s'.tenant_id s'.id after ≡ some s')
  race_makes_two key r r' s s' w k n n' other free absent =
      let e = interleaved-stores key k r r' s s' w free absent in
      let start = (with_key key k r w).sessions in
      let differ : (s'.id == s.id) ≡ false =
        rw ((new_session_lem caller command r s n).0, (new_session_lem caller command r' s' n').0)
          other in
      (
        ap (get s.tenant_id s.id) e
            ∙ get_other s' (save s start) s.tenant_id s.id differ
            ∙ get_saved s start,
        ap (get s'.tenant_id s'.id) e ∙ get_saved s' (save s start),
      )
