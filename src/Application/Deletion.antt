-- ===== src/Application/Deletion.antt =====
-- src/evidence_engine/application/commands/delete_evidence.py, over the in-memory adapters. One
-- store holds what the use case reaches; an exception leaves in it what was written before.
pub mod Erased
pub mod Promise
pub mod Isolation
mod Tests
use oratoria_engine.Prelude.{
  ℕ, String, Bool, true, false, not, List, [], ◌∷◌, ◌++◌, Option, none, some, eqb, ◌==◌,
}
use oratoria_engine.Shared.Errors.{not_authorized, session_not_found}
use oratoria_engine.Shared.Effects.{
  Action, pure, raises, from_option, from_result, reads, changes, writes, refuse_if, ◌>>=◌, ◌>>◌,
}
use oratoria_engine.Sessions.State.{evidence_deleted, state_eq}
use oratoria_engine.Sessions.Session.{AnalysisSession, mark_evidence_deleted}
use oratoria_engine.Adapters.Media
use oratoria_engine.Adapters.Media.{MediaStore, revoke_signatures, count_for_session}
use oratoria_engine.Adapters.SessionStore.{SessionRepository, get, save}
use oratoria_engine.Adapters.EvidenceStore
use oratoria_engine.Adapters.EvidenceStore.{EvidenceRepository}
use oratoria_engine.Adapters.Streaming.{StreamState, clear}
use oratoria_engine.Application.Callers.{AuthenticatedCaller, AuditRecord, evidence_delete, allows}

pub record Store (B D : Type 0) : Type 0 where
  pub sessions : SessionRepository
  pub evidence : EvidenceRepository B D
  pub media : MediaStore
  pub stream_state : StreamState
  pub audit : List AuditRecord

pub record DeletionReceipt : Type 0 where
  pub session_id : String
  pub media_objects_deleted : ℕ
  pub evidence_records_deleted : ℕ
  pub was_already_deleted : Bool

abbrev pub deletion_record : AuthenticatedCaller → String → ℕ → ℕ → ℕ → AuditRecord
deletion_record caller session_id now_ms media_deleted rows_deleted = record {
  actor = caller.application;
  action = "evidence.delete";
  resource = session_id;
  timestamp_ms = now_ms;
  trace_id = caller.trace_id;
  outcome = "deleted";
  tenant = caller.tenant;
  detail = record { media_objects = media_deleted; evidence_records = rows_deleted };
}

abbrev pub already_deleted : String → DeletionReceipt
already_deleted session_id = record {
  session_id = session_id;
  media_objects_deleted = 0;
  evidence_records_deleted = 0;
  was_already_deleted = true;
}

module _ {B D : Type 0} where
  abbrev pub delete_media : String → String → Store B D → ℕ × Store B D
  delete_media tenant session_id w =
      let (n, m) = Media.delete_for_session tenant session_id w.media in (n, record w { media = m })

  abbrev pub delete_bundles : String → String → Store B D → ℕ × Store B D
  delete_bundles tenant session_id w =
      let (n, e) = EvidenceStore.delete_for_session tenant session_id w.evidence in
      (n, record w { evidence = e })

  -- `execute`, from the revocation of the signatures on
  abbrev pub erase_session :
      AuthenticatedCaller → String → ℕ → AnalysisSession → Action (Store B D) DeletionReceipt
  erase_session caller session_id now_ms session = do
    writes (λ w. record w { media = revoke_signatures session_id w.media })
    media_deleted ← changes (delete_media caller.tenant session_id)
    rows_deleted ← changes (delete_bundles caller.tenant session_id)
    writes (λ w. record w { stream_state = clear session_id w.stream_state })
    deleted ← from_result (mark_evidence_deleted session now_ms)
    writes (λ w. record w { sessions = save deleted w.sessions })
    writes (λ w. record w {
      audit = w.audit ++ deletion_record caller session_id now_ms media_deleted rows_deleted ∷ [];
    })
    pure (record {
      session_id = session_id;
      media_objects_deleted = media_deleted;
      evidence_records_deleted = rows_deleted;
      was_already_deleted = false;
    })

  -- `execute`, at the session that was found
  abbrev pub erase_once :
      Bool → AuthenticatedCaller → String → ℕ → AnalysisSession → Action (Store B D) DeletionReceipt
  erase_once true caller session_id now_ms session = pure (already_deleted session_id)
  erase_once false caller session_id now_ms session = erase_session caller session_id now_ms session

  unfoldable pub execute : AuthenticatedCaller → String → ℕ → Action (Store B D) DeletionReceipt
  execute caller session_id now_ms = do
    refuse_if (not (allows caller evidence_delete)) not_authorized
    found ← reads (λ w. get caller.tenant session_id w.sessions)
    session ← from_option session_not_found found
    erase_once (session.state == evidence_deleted) caller session_id now_ms session

  unfoldable pub verify : AuthenticatedCaller → String → ℕ → Action (Store B D) Bool
  verify caller session_id now_ms = do
    refuse_if (not (allows caller evidence_delete)) not_authorized
    remaining ← reads (λ w. count_for_session now_ms caller.tenant session_id w.media)
    pure (eqb remaining 0)
