-- ===== src/Adapters/SessionStore.antt =====
-- src/evidence_engine/adapters/outbound/persistence/in_memory.py: the session repository.
use oratoria_engine.Prelude.{
  String, Bool, true, false, ◌&&◌, [], ◌∷◌, Option, none, some, Dict, lookup, insert, ◌==◌,
  string_eq, pair_eq, if◌then◌else◌,
}
use oratoria_engine.Sessions.Session.{AnalysisSession}

pub record SessionRepository : Type 0 where
  pub sessions : Dict (String × String) AnalysisSession
  pub idempotency : Dict (String × String) String

unfoldable pub get : String → String → SessionRepository → Option AnalysisSession
get tenant session_id r = lookup (tenant, session_id) r.sessions

-- `add` and `save`
unfoldable pub save : AnalysisSession → SessionRepository → SessionRepository
save s r = record r { sessions = insert (s.tenant_id, s.id) s r.sessions }

abbrev pub held_by :
    String → String → Dict (String × String) AnalysisSession → Option AnalysisSession
held_by application session_id [] = none
held_by application session_id ((k, s) ∷ d) =
    if (s.id == session_id) && (s.application_id == application)
    then some s
    else held_by application session_id d

abbrev pub found_for : String → Option String → SessionRepository → Option AnalysisSession
found_for application none r = none
found_for application (some session_id) r = held_by application session_id r.sessions

unfoldable pub find_by_idempotency_key :
    String → String → SessionRepository → Option AnalysisSession
find_by_idempotency_key application key r =
    found_for application (lookup (application, key) r.idempotency) r

abbrev pub claimed :
    String × String → String → Option String → SessionRepository → Bool × SessionRepository
claimed composite session_id (some other) r = (false, r)
claimed composite session_id none r =
    (true, record r { idempotency = insert composite session_id r.idempotency })

unfoldable pub claim_idempotency_key :
    String → String → String → SessionRepository → Bool × SessionRepository
claim_idempotency_key application key session_id r =
    claimed (application, key) session_id (lookup (application, key) r.idempotency) r
