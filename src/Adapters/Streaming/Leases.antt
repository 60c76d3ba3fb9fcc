-- ===== src/Adapters/Streaming/Leases.antt =====
-- The lease that keeps a session to one handler.
use oratoria_engine.Prelude.{
  ℕ, ◌+◌, ◌*◌, ◌<◌, ◌≡◌, ◌⊎◌, refl, sym, subst, ap, ◌∙◌, inl, inr, String, true, false, not, List,
  [], ◌∷◌, some, lookup, lookup-insert, lookup-insert_same, lookup-erase, arith, Bool-cases,
  Option-cases, All, ltb, leb, string_eq, ◌==◌,
}
use oratoria_engine.Adapters.Streaming.{
  StreamSnapshot, StreamState, load, save, clear, is_held, acquire_lease, release_lease,
}

-- What handlers ask of the stream state.
pub data Op : Type 0 where
  loads : ℕ → String → Op
  saves : ℕ → StreamSnapshot → ℕ → Op
  clears : String → Op
  acquires : ℕ → String → ℕ → Op
  releases : String → Op

abbrev pub step : StreamState → Op → StreamState
step s (loads now session_id) = (load now session_id s).1
step s (saves now snapshot ttl) = save now snapshot ttl s
step s (clears session_id) = clear session_id s
step s (acquires now session_id ttl) = (acquire_lease now session_id ttl s).1
step s (releases session_id) = release_lease session_id s

abbrev pub run : StreamState → List Op → StreamState
run s [] = s
run s (o ∷ os) = run (step s o) os

-- The lease is neither given back nor asked for once it has run out.
abbrev pub Respects : String → ℕ → Op → Type 0
Respects held until (loads now session_id) = Unit
Respects held until (saves now snapshot ttl) = Unit
Respects held until (clears session_id) = (session_id == held) ≡ false
Respects held until (acquires now session_id ttl) = ((session_id == held) ≡ false) ⊎ (now < until)
Respects held until (releases session_id) = (session_id == held) ≡ false

load-leases :
    (now : ℕ) (session_id : String) (s : StreamState) → (load now session_id s).1.leases ≡ s.leases
unfolding load
load-leases now session_id s = elim (Option-cases (lookup session_id s.snapshots)) [
  | inl e ↦ rw e refl
  | inr ((snapshot, expires), e) ↦ elim (Bool-cases (leb expires now)) [
    | inl b ↦ rw (e, b) refl
    | inr b ↦ rw (e, b) refl
  ]
]

acquire_held :
    (now until : ℕ) (session_id : String) (ttl : ℕ) (s : StreamState)
    → lookup session_id s.leases ≡ some until
    → now < until
    → acquire_lease now session_id ttl s ≡ (false, s)
unfolding acquire_lease
acquire_held now until session_id ttl s e h = rw e (ground (arith, h))

acquire_other :
    (now : ℕ) (session_id held : String) (ttl : ℕ) (s : StreamState)
    → (session_id == held) ≡ false
    → lookup held (acquire_lease now session_id ttl s).1.leases ≡ lookup held s.leases
unfolding acquire_lease
acquire_other now session_id held ttl s d =
    elim (Bool-cases (is_held now (lookup session_id s.leases))) [
      | inl b ↦ rw b refl
      | inr b ↦ rw b (lookup-insert session_id held (now + ttl * 1000) s.leases ∙ rw d refl)
    ]

step_keeps :
    (held : String) (until : ℕ) (s : StreamState) (o : Op)
    → Respects held until o
    → lookup held s.leases ≡ some until
    → lookup held (step s o).leases ≡ some until
unfolding save clear release_lease
step_keeps held until s (loads now session_id) r e =
    ap (lookup held) (load-leases now session_id s) ∙ e
step_keeps held until s (saves now snapshot ttl) r e = e
step_keeps held until s (clears session_id) r e = lookup-erase session_id held s.leases ∙ rw r e
step_keeps held until s (acquires now session_id ttl) (inl d) e =
    acquire_other now session_id held ttl s d ∙ e
step_keeps held until s (acquires now session_id ttl) (inr h) e =
    elim (Bool-cases (session_id == held)) [
      | inl q ↦
          let same : held ≡ session_id = sym ((string_eq.beq_iff session_id held).0 q) in
          ap (λ x. lookup held x.1.leases)
            (acquire_held now until session_id ttl s
              (subst (λ k. lookup k s.leases ≡ some until) same e) h)
          ∙ e
      | inr d ↦ acquire_other now session_id held ttl s d ∙ e
    ]
step_keeps held until s (releases session_id) r e = lookup-erase session_id held s.leases ∙ rw r e

run_keeps :
    (held : String) (until : ℕ) (s : StreamState) (os : List Op)
    → All (Respects held until) os
    → lookup held s.leases ≡ some until
    → lookup held (run s os).leases ≡ some until
run_keeps held until s [] r e = e
run_keeps held until s (o ∷ os) r e =
    run_keeps held until (step s o) os r.1 (step_keeps held until s o r.0 e)

granted_until :
    (now ttl : ℕ) (held : String) (s : StreamState)
    → (acquire_lease now held ttl s).0 ≡ true
    → lookup held (acquire_lease now held ttl s).1.leases ≡ some (now + ttl * 1000)
unfolding acquire_lease
granted_until now ttl held s g = elim (Bool-cases (is_held now (lookup held s.leases))) [
  | inl b ↦ ground (arith, b, g)
  | inr b ↦ rw b (lookup-insert_same held (now + ttl * 1000) s.leases)
]

answer_at :
    (later until ttl : ℕ) (held : String) (s : StreamState)
    → lookup held s.leases ≡ some until
    → (acquire_lease later held ttl s).0 ≡ not (ltb later until)
unfolding acquire_lease
answer_at later until ttl held s e = rw e (ground arith)

-- A lease that was granted is exclusive and expires. After a handler acquired a session, and
-- over any operations that neither give that lease back nor clear the session nor ask for it after
-- its deadline, another request for it is granted exactly from the deadline on.
pub lease_exclusive :
    (held : String) (now ttl : ℕ) (s : StreamState) (os : List Op) (later ttl' : ℕ)
    → (acquire_lease now held ttl s).0 ≡ true
    → All (Respects held (now + ttl * 1000)) os
    → (acquire_lease later held ttl' (run (acquire_lease now held ttl s).1 os)).0
      ≡ not (ltb later (now + ttl * 1000))
lease_exclusive held now ttl s os later ttl' g r =
    answer_at later (now + ttl * 1000) ttl' held (run (acquire_lease now held ttl s).1 os) (
      run_keeps held (now + ttl * 1000) (acquire_lease now held ttl s).1 os r
        (granted_until now ttl held s g))
