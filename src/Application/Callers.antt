-- ===== src/Application/Callers.antt =====
-- src/evidence_engine/application/ports/platform.py and repositories.py: who calls, with what
-- scopes, and what is written to the audit log.
use oratoria_engine.Prelude.{ℕ, ◌≡◌, ◌↔◌, String, Bool, true, ◌||◌, List, eqb, arith, Eq, contains}

pub data Scope : Type 0 where
  sessions_write sessions_read results_read evidence_delete jobs_write admin : Scope

scope_index : Scope → ℕ
scope_index sessions_write = 0
scope_index sessions_read = 1
scope_index results_read = 2
scope_index evidence_delete = 3
scope_index jobs_write = 4
scope_index admin = 5

unfoldable pub same_scope : Scope → Scope → Bool
unfolding scope_index
same_scope s t = eqb (scope_index s) (scope_index t)

pub same_scope_iff : (s t : Scope) → (same_scope s t ≡ true) ↔ (s ≡ t)
unfolding same_scope
same_scope_iff s t = ground arith

instance abbrev pub scope_eq : Eq Scope
scope_eq = record { beq = same_scope; beq_iff = same_scope_iff }

pub record AuthenticatedCaller : Type 0 where
  pub application : String
  pub tenant : String
  pub key_id : String
  pub scopes : List Scope
  pub trace_id : String

unfoldable pub allows : AuthenticatedCaller → Scope → Bool
allows caller scope = contains scope caller.scopes || contains admin caller.scopes

-- The `detail` text of a deletion, as the two counts that it prints.
pub record DeletionDetail : Type 0 where
  pub media_objects : ℕ
  pub evidence_records : ℕ

pub record AuditRecord : Type 0 where
  pub actor : String
  pub action : String
  pub resource : String
  pub timestamp_ms : ℕ
  pub trace_id : String
  pub outcome : String
  pub tenant : String
  pub detail : DeletionDetail
