-- ===== src/Application/Capture/Stored.antt =====
-- The sessions on file under capture control.
use oratoria_engine.Prelude.{
  ℕ, ◌≡◌, ◌⊎◌, refl, inl, inr, String, List, [], ◌∷◌, some, Items, Items-insert, Items-lookup,
  Bool-cases, Option-cases, string_eq, pair_eq,
}
use oratoria_engine.Shared.Errors.{Result, Result-cases, ok}
use oratoria_engine.Shared.Effects.{Action, pure, from_result, writes, ◌>>=◌, ◌>>◌}
use oratoria_engine.Sessions.Session.{AnalysisSession}
use oratoria_engine.Sessions.Session.Steps
use oratoria_engine.Sessions.Session.Steps.{Op, IsConsistent, step-IsConsistent}
use oratoria_engine.Adapters.SessionStore.{SessionRepository, get, save}
use oratoria_engine.Application.Callers.{AuthenticatedCaller, sessions_write, allows}
use oratoria_engine.Application.Capture.{resolve, begin, pause, resume}

pub data Kind : Type 0 where
  begins pauses resumes : Kind

pub record Request : Type 0 where
  pub kind : Kind
  pub caller : AuthenticatedCaller
  pub session_id : String
  pub wall_ms : ℕ

abbrev pub perform :
    Kind → AuthenticatedCaller → String → ℕ → Action SessionRepository AnalysisSession
perform begins = begin
perform pauses = pause
perform resumes = resume

-- The store after each request, whether it succeeded or raised.
abbrev pub run : SessionRepository → List Request → SessionRepository
run r [] = r
run r (q ∷ qs) = run (perform q.kind q.caller q.session_id q.wall_ms r).1 qs

-- Every session is filed under its own keys, runs its clock exactly while it accepts media, and
-- accepts media only under live consent.
abbrev pub IsSound : SessionRepository → Type 0
IsSound r = Items (λ k s. (k ≡ (s.tenant_id, s.id)) × IsConsistent s) r.sessions

abbrev op_of : Kind → Op
op_of begins = Op.begin
op_of pauses = Op.pause
op_of resumes = Op.resume

-- The shape that the three handlers share.
abbrev via :
    (AnalysisSession → ℕ → Result AnalysisSession)
    → AuthenticatedCaller
    → String
    → ℕ
    → Action SessionRepository AnalysisSession
via f caller session_id wall_ms = do
  session ← resolve caller session_id
  updated ← from_result (f session wall_ms)
  writes (save updated)
  pure updated

-- A request leaves the store as it was, or with one session replaced by its successor.
via_reaches :
    (f : AnalysisSession → ℕ → Result AnalysisSession) (caller : AuthenticatedCaller)
    (session_id : String) (wall_ms : ℕ) (r : SessionRepository)
    → ((via f caller session_id wall_ms r).1 ≡ r)
      ⊎ ((s : AnalysisSession) × (t : AnalysisSession) × (get caller.tenant session_id r ≡ some s)
          × (f s wall_ms ≡ ok t)
          × ((via f caller session_id wall_ms r).1 ≡ save t r))
unfolding resolve
via_reaches f caller session_id wall_ms r = elim (Bool-cases (allows caller sessions_write)) [
  | inr a ↦ inl (rw a refl)
  | inl a ↦ elim (Option-cases (get caller.tenant session_id r)) [
    | inl g ↦ inl (rw (a, g) refl)
    | inr (s, g) ↦ elim (Result-cases (f s wall_ms)) [
      | inl (t, e) ↦ inr (s, t, g, e, rw (a, g, e) refl)
      | inr (x, e) ↦ inl (rw (a, g, e) refl)
    ]
  ]
]

perform-via :
    (kind : Kind) (caller : AuthenticatedCaller) (session_id : String) (wall_ms : ℕ)
    (r : SessionRepository)
    → (perform kind caller session_id wall_ms r).1
      ≡ (via (Steps.step (op_of kind)) caller session_id wall_ms r).1
unfolding begin pause resume Steps.step
perform-via begins caller session_id wall_ms r = refl
perform-via pauses caller session_id wall_ms r = refl
perform-via resumes caller session_id wall_ms r = refl

perform-IsSound :
    (kind : Kind) (caller : AuthenticatedCaller) (session_id : String) (wall_ms : ℕ)
    (r : SessionRepository)
    → IsSound r
    → IsSound (perform kind caller session_id wall_ms r).1
unfolding save get
perform-IsSound kind caller session_id wall_ms r h =
    elim (via_reaches (Steps.step (op_of kind)) caller session_id wall_ms r) [
      | inl e ↦ rw (perform-via kind caller session_id wall_ms r, e) h
      | inr (s, t, g, e, q) ↦
          let Filed = λ (k : String × String) (u : AnalysisSession).
            (k ≡ (u.tenant_id, u.id)) × IsConsistent u in
          let found = Items-lookup Filed (caller.tenant, session_id) s r.sessions h g in
          rw (perform-via kind caller session_id wall_ms r, q)
            (Items-insert Filed (t.tenant_id, t.id) t r.sessions
              (refl, step-IsConsistent (op_of kind) s wall_ms e found.1) h)
    ]

-- No stored session captures without live consent. Over any requests to begin, pause and resume,
-- of any callers and in any order, refused ones included, every session on file stays under its
-- own keys, with its clock running exactly while it accepts media, accepts media only under live
-- consent, and has none once its evidence is deleted, if that was so at the start.
pub run-IsSound : (r : SessionRepository) (qs : List Request) → IsSound r → IsSound (run r qs)
run-IsSound r [] h = h
run-IsSound r (q ∷ qs) h =
    run-IsSound (perform q.kind q.caller q.session_id q.wall_ms r).1 qs
      (perform-IsSound q.kind q.caller q.session_id q.wall_ms r h)
