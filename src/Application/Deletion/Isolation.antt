-- ===== src/Application/Deletion/Isolation.antt =====
-- What a deletion does to other tenants, and what a refused one does.
use oratoria_engine.Prelude.{
  ℕ, ◌≡◌, ◌≢◌, ◌⊎◌, inl, inr, refl, ap, sym, ◌∙◌, String, true, false, Option, none, some, lookup,
  lookup-insert, lookup-erase, Items-lookup, length, arith, ◌==◌, string_eq, pair_eq, Bool-cases,
  Option-cases,
}
use oratoria_engine.Prelude.Batch.{erase_all_spares, keys_where, erase_all}
use oratoria_engine.Shared.Errors.{Error, Result-cases, ok, raised, illegal_session_transition}
use oratoria_engine.Sessions.State.{evidence_deleted, can_transition, state_eq, require_transition}
use oratoria_engine.Sessions.Session.{AnalysisSession, mark_evidence_deleted}
use oratoria_engine.Adapters.Media
use oratoria_engine.Adapters.Media.{belongs, revoke_signatures}
use oratoria_engine.Adapters.Streaming.{clear}
use oratoria_engine.Adapters.SessionStore.{get, save}
use oratoria_engine.Adapters.EvidenceStore
use oratoria_engine.Adapters.EvidenceStore.{EvidenceRepository, owned, drop_document}
use oratoria_engine.Application.Callers.{AuthenticatedCaller, evidence_delete, allows}
use oratoria_engine.Application.Deletion.{Store, execute}
use oratoria_engine.Application.Deletion.Erased.{
  IsErased, emptied, emptied-IsErased, finished, execute_lem, evidence_gone,
}
use oratoria_engine.Application.Deletion.Promise.{IsFiled, marked_lem}

abbrev key : String → String → String × String
key tenant a = (tenant, a)

module _ (tenant other : String) (n : other ≢ tenant) where
  differs : (other == tenant) ≡ false
  differs = ground (arith, n, string_eq.beq_iff other tenant)

  key_differs : (a b : String) → (key tenant a == key other b) ≡ false
  key_differs a b = ground (arith, n, string_eq.beq_iff tenant other)

module _ {B D : Type 0} where
  -- What is filed under the keys of a tenant is the same in both stores: sessions, media objects, bundles
  -- and documents.
  abbrev pub Spares : String → Store B D → Store B D → Type 0
  Spares tenant w w' =
      (k : String)
      → (lookup (tenant, k) w'.sessions.sessions ≡ lookup (tenant, k) w.sessions.sessions)
        × (lookup (tenant, k) w'.media.objects ≡ lookup (tenant, k) w.media.objects)
        × (lookup (tenant, k) w'.evidence.bundles ≡ lookup (tenant, k) w.evidence.bundles)
        × (lookup (tenant, k) w'.evidence.documents ≡ lookup (tenant, k) w.evidence.documents)

  -- What is filed under a session's identifier alone is the same in both stores: upload signatures, the
  -- stream snapshot and the lease.
  abbrev pub IsUntouched : String → Store B D → Store B D → Type 0
  IsUntouched id w w' =
      (lookup id w'.media.signatures ≡ lookup id w.media.signatures)
      × (lookup id w'.stream_state.snapshots ≡ lookup id w.stream_state.snapshots)
      × (lookup id w'.stream_state.leases ≡ lookup id w.stream_state.leases)

  module _ (caller : AuthenticatedCaller) (session_id : String) (now_ms : ℕ) (w : Store B D) where
    execute_half :
        (s : AnalysisSession) (e : Error)
        → allows caller evidence_delete ≡ true
        → get caller.tenant session_id w.sessions ≡ some s
        → (s.state == evidence_deleted) ≡ false
        → mark_evidence_deleted s now_ms ≡ raised e
        → execute caller session_id now_ms w ≡ (raised e, emptied caller.tenant session_id w)
    unfolding execute
    execute_half s e a g n m = rw (a, g, n, m) refl

    -- A deletion is not all or nothing. Asked, by a caller with the scope, for a session that is on
    -- file and neither deleted nor in a state it may be deleted from, such as one that is being
    -- captured, the request is refused as an illegal transition, and by then everything of the
    -- session is gone while the session on file and the audit log are as before.
    pub execute_refused :
        (s : AnalysisSession)
        → allows caller evidence_delete ≡ true
        → get caller.tenant session_id w.sessions ≡ some s
        → (s.state == evidence_deleted) ≡ false
        → can_transition s.state evidence_deleted ≡ false
        → (w' : Store B D) × (execute caller session_id now_ms w
            ≡ (raised illegal_session_transition, w'))
          × IsErased caller.tenant session_id w'
          × (w'.sessions ≡ w.sessions)
          × (w'.audit ≡ w.audit)
    unfolding mark_evidence_deleted require_transition
    execute_refused s a g n c = (
      emptied caller.tenant session_id w,
      execute_half s illegal_session_transition a g n (rw c refl),
      emptied-IsErased caller.tenant session_id w,
      refl,
      refl,
    )

    -- The stores that a deletion can end in.
    execute_reaches :
        ((execute caller session_id now_ms w).1 ≡ w)
        ⊎ (((execute caller session_id now_ms w).1 ≡ emptied caller.tenant session_id w)
            ⊎ ((s : AnalysisSession) × (s' : AnalysisSession) × (get caller.tenant session_id
                    w.sessions
                  ≡ some s)
                × (mark_evidence_deleted s now_ms ≡ ok s')
                × ((execute caller session_id now_ms w).1
                    ≡ finished caller session_id now_ms w s s')))
    unfolding execute
    execute_reaches = elim (Bool-cases (allows caller evidence_delete)) [
      | inr a ↦ inl (rw a refl)
      | inl a ↦ elim (Option-cases (get caller.tenant session_id w.sessions)) [
        | inl g ↦ inl (rw (a, g) refl)
        | inr (s, g) ↦ elim (Bool-cases (s.state == evidence_deleted)) [
          | inl d ↦ inl (rw (a, g, d) refl)
          | inr d ↦ elim (Result-cases (mark_evidence_deleted s now_ms)) [
            | inl (s', m) ↦ inr (
                inr (
                  s,
                  s',
                  g,
                  m,
                  ap (λ x. x.1) (execute_lem caller session_id now_ms w s s' a g d m),
                ))
            | inr (e, m) ↦ inr (inl (ap (λ x. x.1) (execute_half s e a g d m)))
          ]
        ]
      ]
    ]

  module _ (tenant other : String) (n : other ≢ tenant) where
    drop_spares :
        (a k : String) (o : Option D) (c : ℕ) (r : EvidenceRepository B D)
        → lookup (other, k) (drop_document (tenant, a) o c r).1.documents
          ≡ lookup (other, k) r.documents
    drop_spares a k none c r = refl
    drop_spares a k (some d) c r =
        lookup-erase (tenant, a) (other, k) r.documents ∙ rw (key_differs tenant other n a k) refl

    documents_spared :
        (a k : String) (r : EvidenceRepository B D)
        → lookup (other, k) (EvidenceStore.delete_for_session tenant a r).1.documents
          ≡ lookup (other, k) r.documents
    unfolding EvidenceStore.delete_for_session
    documents_spared a k r =
        let keys = keys_where (owned tenant a) r.bundles in
        drop_spares a k (lookup (tenant, a) r.documents) (length keys)
          (record r { bundles = erase_all keys r.bundles })

    objects_spared :
        (a k : String) (w : Store B D)
        → lookup (other, k) (emptied tenant a w).media.objects ≡ lookup (other, k) w.media.objects
    unfolding Media.delete_for_session revoke_signatures belongs
    objects_spared a k w =
        erase_all_spares (belongs tenant a) (other, k) w.media.objects
          (λ e. rw (differs tenant other n) refl)

    bundles_spared :
        (a k : String) (w : Store B D)
        → lookup (other, k) (emptied tenant a w).evidence.bundles
          ≡ lookup (other, k) w.evidence.bundles
    unfolding owned
    bundles_spared a k w =
        ap (lookup (other, k)) (evidence_gone tenant a w.evidence).1
        ∙ erase_all_spares (owned tenant a) (other, k) w.evidence.bundles
            (λ b. rw (differs tenant other n) refl)

    session_spared :
        (k : String) (s : AnalysisSession) (w : Store B D)
        → s.tenant_id ≡ tenant
        → lookup (other, k) (save s w.sessions).sessions ≡ lookup (other, k) w.sessions.sessions
    unfolding save
    session_spared k s w t =
        lookup-insert (s.tenant_id, s.id) (other, k) s w.sessions.sessions
        ∙ rw (t, key_differs tenant other n s.id k) refl

  emptied-IsUntouched :
      (tenant session_id other : String) (w : Store B D)
      → other ≢ session_id
      → IsUntouched other w (emptied tenant session_id w)
  unfolding revoke_signatures clear Media.delete_for_session
  emptied-IsUntouched tenant session_id other w n =
      let e : (session_id == other) ≡ false =
        ground (arith, n, string_eq.beq_iff session_id other) in
      (
        lookup-erase session_id other w.media.signatures ∙ rw e refl,
        lookup-erase session_id other w.stream_state.snapshots ∙ rw e refl,
        lookup-erase session_id other w.stream_state.leases ∙ rw e refl,
      )

  spared :
      (caller : AuthenticatedCaller) (session_id : String) (now_ms : ℕ) (w : Store B D)
      (other : String)
      → other ≢ caller.tenant
      → IsFiled w.sessions
      → Spares other w (execute caller session_id now_ms w).1
  unfolding get
  spared caller session_id now_ms w other n f k =
      let o = objects_spared caller.tenant other n session_id k w in
      let b = bundles_spared caller.tenant other n session_id k w in
      let c = documents_spared caller.tenant other n session_id k w.evidence in
      elim (execute_reaches caller session_id now_ms w) [
        | inl e ↦ rw e (refl, refl, refl, refl)
        | inr (inl e) ↦ rw e (refl, o, b, c)
        | inr (inr (s, s', g, m, e)) ↦
            let (t, i, d) = marked_lem s s' now_ms m in
            let filed =
              Items-lookup (λ j u. j ≡ (u.tenant_id, u.id)) (caller.tenant, session_id) s
                w.sessions.sessions f g in
            rw e
              (session_spared caller.tenant other n k s' w (t ∙ sym (ap (λ p. p.0) filed)), o, b, c)
      ]

  untouched :
      (caller : AuthenticatedCaller) (session_id : String) (now_ms : ℕ) (w : Store B D)
      (id : String)
      → id ≢ session_id
      → IsUntouched id w (execute caller session_id now_ms w).1
  untouched caller session_id now_ms w id n =
      let e = emptied-IsUntouched caller.tenant session_id id w n in
      elim (execute_reaches caller session_id now_ms w) [
        | inl h ↦ rw h (refl, refl, refl)
        | inr (inl h) ↦ rw h e
        | inr (inr (s, s', g, m, h)) ↦ rw h e
      ]

  -- When sessions are filed under their own keys, then whatever the request for a deletion and however it
  -- ends, a refusal after the media is gone included, every session, media object, bundle and document
  -- under another tenant's keys is what it was, and so are the upload signatures, the stream snapshot
  -- and the lease of every other session identifier. These three are kept by the identifier alone, so
  -- that nothing is stated of those of the deleted identifier in another tenant.
  pub execute-Spares :
      (caller : AuthenticatedCaller) (session_id : String) (now_ms : ℕ) (w : Store B D)
      (other : String)
      → other ≢ caller.tenant
      → IsFiled w.sessions
      → Spares other w (execute caller session_id now_ms w).1
        × ((id : String)
            → id ≢ session_id
            → IsUntouched id w (execute caller session_id now_ms w).1)
  execute-Spares caller session_id now_ms w other n f =
      (spared caller session_id now_ms w other n f, untouched caller session_id now_ms w)
