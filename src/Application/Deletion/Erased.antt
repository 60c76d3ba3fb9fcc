-- ===== src/Application/Deletion/Erased.antt =====
-- What a deletion leaves behind.
use oratoria_engine.Prelude.{
  ℕ, ◌≡◌, refl, sym, subst, String, true, false, not, ◌&&◌, [], ◌∷◌, ◌++◌, Option, none, some, Dict,
  lookup, lookup-erase_same, Items, length, ◌==◌, string_eq, pair_eq,
}
use oratoria_engine.Prelude.Batch.{keys_where, erase_all, erase_all_clears}
use oratoria_engine.Shared.Errors.{ok}
use oratoria_engine.Sessions.State.{evidence_deleted, state_eq}
use oratoria_engine.Sessions.Session.{AnalysisSession, mark_evidence_deleted}
use oratoria_engine.Adapters.Media
use oratoria_engine.Adapters.Media.{
  MediaStore, Entry, belongs, expired, tally, count_for_session, revoke_signatures,
}
use oratoria_engine.Adapters.SessionStore.{get, save}
use oratoria_engine.Adapters.EvidenceStore.{
  EvidenceRepository, EvidenceBundle, owned, drop_document,
}
use oratoria_engine.Adapters.EvidenceStore
use oratoria_engine.Adapters.Streaming.{clear}
use oratoria_engine.Application.Callers.{AuthenticatedCaller, evidence_delete, allows}
use oratoria_engine.Application.Deletion.{Store, DeletionReceipt, execute, deletion_record}

pub tally_none :
    (now : ℕ) (tenant session_id : String) (d : Dict (String × String) Entry)
    → Items (λ k e. belongs tenant session_id k e ≡ false) d
    → tally (λ k e. belongs tenant session_id k e && not (expired now e)) d ≡ 0
tally_none now tenant session_id [] h = refl
tally_none now tenant session_id ((k, e) ∷ d) h = rw (h.0) (tally_none now tenant session_id d h.1)

module _ {B D : Type 0} where
  -- Nothing of the session is left: no media, bundle, document, signature, snapshot or lease.
  abbrev pub IsErased : String → String → Store B D → Type 0
  IsErased tenant session_id w =
      Items (λ k e. belongs tenant session_id k e ≡ false) w.media.objects
      × Items (λ k b. owned tenant session_id k b ≡ false) w.evidence.bundles
      × (lookup (tenant, session_id) w.evidence.documents ≡ none)
      × (lookup session_id w.media.signatures ≡ none)
      × (lookup session_id w.stream_state.snapshots ≡ none)
      × (lookup session_id w.stream_state.leases ≡ none)

  -- The store after the four deletions, before the session is marked.
  abbrev pub emptied : String → String → Store B D → Store B D
  emptied tenant session_id w = record w {
    media = (Media.delete_for_session tenant session_id (revoke_signatures session_id w.media)).1;
    evidence = (EvidenceStore.delete_for_session tenant session_id w.evidence).1;
    stream_state = clear session_id w.stream_state;
  }

  drop_document_lem :
      (key : String × String) (o : Option D) (n : ℕ) (r : EvidenceRepository B D)
      → lookup key r.documents ≡ o
      → (lookup key (drop_document key o n r).1.documents ≡ none)
        × ((drop_document key o n r).1.bundles ≡ r.bundles)
  drop_document_lem key none n r h = (h, refl)
  drop_document_lem key (some d) n r h = (lookup-erase_same key r.documents, refl)

  pub evidence_gone :
      (tenant session_id : String) (e : EvidenceRepository B D)
      → (lookup
            (tenant, session_id)
            (EvidenceStore.delete_for_session tenant session_id e).1.documents
          ≡ none)
        × ((EvidenceStore.delete_for_session tenant session_id e).1.bundles
            ≡ erase_all (keys_where (owned tenant session_id) e.bundles) e.bundles)
  unfolding EvidenceStore.delete_for_session
  evidence_gone tenant session_id e =
      let keys = keys_where (owned tenant session_id) e.bundles in
      drop_document_lem (tenant, session_id) (lookup (tenant, session_id) e.documents) (length keys)
        (record e { bundles = erase_all keys e.bundles }) refl

  pub emptied-IsErased :
      (tenant session_id : String) (w : Store B D)
      → IsErased tenant session_id (emptied tenant session_id w)
  unfolding Media.delete_for_session revoke_signatures clear
  emptied-IsErased tenant session_id w = (
    erase_all_clears (belongs tenant session_id) w.media.objects,
    subst (Items (λ k b. owned tenant session_id k b ≡ false))
        (sym (evidence_gone tenant session_id w.evidence).1)
        (erase_all_clears (owned tenant session_id) w.evidence.bundles),
    (evidence_gone tenant session_id w.evidence).0,
    lookup-erase_same session_id w.media.signatures,
    lookup-erase_same session_id w.stream_state.snapshots,
    lookup-erase_same session_id w.stream_state.leases,
  )

  module _ (caller : AuthenticatedCaller) (session_id : String) (now_ms : ℕ) (w : Store B D)
      (s : AnalysisSession) where
    -- The receipt and the audit record of a deletion, by what it counted.
    abbrev pub finished : AnalysisSession → Store B D
    finished s' = record (emptied caller.tenant session_id w) {
      sessions = save s' w.sessions;
      audit =
          w.audit
          ++ deletion_record caller session_id now_ms
              (Media.delete_for_session caller.tenant session_id
                (revoke_signatures session_id w.media)).0
              (EvidenceStore.delete_for_session caller.tenant session_id w.evidence).0
            ∷ [];
    }

    abbrev pub receipt : DeletionReceipt
    receipt = record {
      session_id = session_id;
      media_objects_deleted =
          (Media.delete_for_session caller.tenant session_id
            (revoke_signatures session_id w.media)).0;
      evidence_records_deleted =
          (EvidenceStore.delete_for_session caller.tenant session_id w.evidence).0;
      was_already_deleted = false;
    }

    pub execute_lem :
        (s' : AnalysisSession)
        → allows caller evidence_delete ≡ true
        → get caller.tenant session_id w.sessions ≡ some s
        → (s.state == evidence_deleted) ≡ false
        → mark_evidence_deleted s now_ms ≡ ok s'
        → execute caller session_id now_ms w ≡ (ok receipt, finished s')
    unfolding execute
    execute_lem s' a g n m = rw (a, g, n, m) refl
