-- ===== src/Adapters/Media.antt =====
-- src/evidence_engine/adapters/outbound/object_storage/in_memory.py: raw media by tenant and
-- reference, and the signatures of its upload links. The reading of the clock is an argument; the
-- name of an object, which hashes its bytes, and a new signature are arguments too.
use oratoria_engine.Prelude.{
  ℕ, ◌+◌, String, Bool, true, false, not, ◌&&◌, List, [], ◌∷◌, Option, none, some, Dict, lookup,
  insert, erase, length, leb, add, ◌==◌, string_eq, pair_eq, if◌then◌else◌,
}
use oratoria_engine.Prelude.Batch.{keys_where, erase_all}

pub data MediaKind : Type 0 where
  raw_media derived_features : MediaKind

pub record StoredObject : Type 0 where
  pub ref : String
  pub tenant : String
  pub session_id : String
  pub kind : MediaKind
  pub size_bytes : ℕ
  pub content_type : String
  pub expires_at_ms : ℕ

pub record Entry : Type 0 where
  pub stored : StoredObject
  pub payload : List ℕ

pub record MediaStore : Type 0 where
  pub objects : Dict (String × String) Entry
  pub signatures : Dict String (List String)

unfoldable pub put :
    String
    → String
    → String
    → MediaKind
    → String
    → List ℕ
    → ℕ
    → MediaStore
    → StoredObject × MediaStore
put ref tenant session_id kind content_type payload expires_at_ms m =
    let stored : StoredObject = record {
      ref = ref;
      tenant = tenant;
      session_id = session_id;
      kind = kind;
      size_bytes = length payload;
      content_type = content_type;
      expires_at_ms = expires_at_ms;
    } in
    (
      stored,
      record m {
        objects = insert (tenant, ref) (record { stored = stored; payload = payload }) m.objects;
      },
    )

unfoldable pub expired : ℕ → Entry → Bool
expired now e = leb e.stored.expires_at_ms now

abbrev is_some : Option Entry → Bool
is_some none = false
is_some (some e) = true

-- `_live`, which drops an expired object as it finds it
abbrev live_at : ℕ → String × String → Option Entry → MediaStore → Option Entry × MediaStore
live_at now key none m = (none, m)
live_at now key (some e) m =
    if expired now e then (none, record m { objects = erase key m.objects }) else (some e, m)

unfoldable pub live : ℕ → String → String → MediaStore → Option Entry × MediaStore
live now tenant ref m = live_at now (tenant, ref) (lookup (tenant, ref) m.objects) m

unfoldable pub exists : ℕ → String → String → MediaStore → Bool × MediaStore
unfolding live
exists now tenant ref m = let (found, m') = live now tenant ref m in (is_some found, m')

unfoldable pub delete : String → String → MediaStore → Bool × MediaStore
delete tenant ref m =
    (is_some (lookup (tenant, ref) m.objects), record m { objects = erase (tenant, ref) m.objects })

-- The items of one session of one tenant.
unfoldable pub belongs : String → String → String × String → Entry → Bool
belongs tenant session_id key e = (key.0 == tenant) && (e.stored.session_id == session_id)

unfoldable pub delete_for_session : String → String → MediaStore → ℕ × MediaStore
delete_for_session tenant session_id m =
    let keys = keys_where (belongs tenant session_id) m.objects in
    (length keys, record m { objects = erase_all keys m.objects })

abbrev pub tally : (String × String → Entry → Bool) → Dict (String × String) Entry → ℕ
tally p [] = 0
tally p ((k, e) ∷ d) = let rest = tally p d in if p k e then 1 + rest else rest

unfoldable pub count_for_session : ℕ → String → String → MediaStore → ℕ
count_for_session now tenant session_id m =
    tally (λ k e. belongs tenant session_id k e && not (expired now e)) m.objects

abbrev signed : Option (List String) → List String
signed none = []
signed (some s) = s

-- `sign_upload`, with the signature that was drawn; the link itself is not kept
unfoldable pub sign_upload : String → String → MediaStore → MediaStore
sign_upload signature session_id m = record m {
  signatures =
      insert session_id (add signature (signed (lookup session_id m.signatures))) m.signatures;
}

unfoldable pub revoke_signatures : String → MediaStore → MediaStore
revoke_signatures session_id m = record m { signatures = erase session_id m.signatures }

unfoldable pub signature_count : String → MediaStore → ℕ
signature_count session_id m = length (signed (lookup session_id m.signatures))
