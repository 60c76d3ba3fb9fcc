-- ===== src/Adapters/EvidenceStore.antt =====
-- src/evidence_engine/adapters/outbound/persistence/in_memory.py: derived evidence. `B` is what a
-- bundle holds besides its keys, `D` a document.
use oratoria_engine.Prelude.{
  ℕ, ◌+◌, String, Bool, ◌&&◌, Option, none, some, Dict, lookup, insert, erase, length, ◌==◌,
  string_eq, pair_eq,
}
use oratoria_engine.Prelude.Batch.{keys_where, erase_all}

pub record EvidenceBundle (B : Type 0) : Type 0 where
  pub run_id : String
  pub session_id : String
  pub tenant : String
  pub contents : B

pub record EvidenceRepository (B D : Type 0) : Type 0 where
  pub bundles : Dict (String × String) (EvidenceBundle B)
  pub documents : Dict (String × String) D

unfoldable pub owned : {B : Type 0} → String → String → String × String → EvidenceBundle B → Bool
owned tenant session_id key b = (key.0 == tenant) && (b.session_id == session_id)

module _ {B D : Type 0} where
  unfoldable pub store : EvidenceBundle B → EvidenceRepository B D → EvidenceRepository B D
  store b r = record r { bundles = insert (b.tenant, b.run_id) b r.bundles }

  unfoldable pub load : String → String → EvidenceRepository B D → Option (EvidenceBundle B)
  load tenant run_id r = lookup (tenant, run_id) r.bundles

  -- `store_document`, with the session that the document names
  unfoldable pub store_document :
      String → D → String → EvidenceRepository B D → EvidenceRepository B D
  store_document session_id document tenant r = record r {
    documents = insert (tenant, session_id) document r.documents;
  }

  unfoldable pub load_document : String → String → EvidenceRepository B D → Option D
  load_document tenant session_id r = lookup (tenant, session_id) r.documents

  abbrev pub drop_document :
      String × String → Option D → ℕ → EvidenceRepository B D → ℕ × EvidenceRepository B D
  drop_document key none removed r = (removed, r)
  drop_document key (some d) removed r =
      (removed + 1, record r { documents = erase key r.documents })

  unfoldable pub delete_for_session :
      String → String → EvidenceRepository B D → ℕ × EvidenceRepository B D
  delete_for_session tenant session_id r =
      let keys = keys_where (owned tenant session_id) r.bundles in
      drop_document (tenant, session_id) (lookup (tenant, session_id) r.documents) (length keys)
        (record r { bundles = erase_all keys r.bundles })
