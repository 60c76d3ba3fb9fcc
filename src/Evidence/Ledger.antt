-- ===== src/Evidence/Ledger.antt =====
-- src/evidence_engine/domain/evidence/ledger.py: the history of every event of one run. A method
-- that raises changes nothing, so it returns its entry with the new ledger, or the error. The
-- payload is opaque, as it is to the source.
pub mod Histories
pub mod Freeze
pub mod Listing
mod Tests
use oratoria_engine.Prelude.{
  ℕ, ◌+◌, String, Bool, true, false, ◌&&◌, ◌||◌, Option, none, some, List, [], ◌∷◌, ◌++◌, length,
  get_last?, keep, Dict, lookup, insert, values, sort, ltb, eqb, leb_text, string_eq,
}
use oratoria_engine.Shared.Errors.{
  Result, ok, raised, evidence_ledger_violation, index_error, raise_if, ◌>>=◌, ◌>>◌,
}
use oratoria_engine.Shared.Timeline.{Interval}
use oratoria_engine.Shared.Provenance.{Provenance}

pub record LedgerEntry (P : Type 0) : Type 0 where
  pub event_id : String
  pub revision : ℕ
  pub interval : Interval
  pub provenance : Provenance
  pub is_final : Bool
  pub payload : P

pub record EvidenceLedger (P : Type 0) : Type 0 where
  pub run_id : String
  pub history : Dict String (List (LedgerEntry P))

module _ {P : Type 0} where
  abbrev pub empty_ledger : String → EvidenceLedger P
  empty_ledger run_id = record { run_id = run_id; history = [] }

  -- `versions[-1]`
  abbrev pub last : List (LedgerEntry P) → Result (LedgerEntry P)
  last versions = elim (get_last? versions) [ none ↦ raised index_error | some e ↦ ok e ]

  -- `self._history.get(event_id)`, which the methods below require
  abbrev pub versions_of : EvidenceLedger P → String → Result (List (LedgerEntry P))
  versions_of l event_id = elim (lookup event_id l.history) [
    | none ↦ raised evidence_ledger_violation
    | some versions ↦ ok versions
  ]

  abbrev pub store : EvidenceLedger P → String → List (LedgerEntry P) → EvidenceLedger P
  store l event_id versions = record l { history = insert event_id versions l.history }

  unfoldable pub append :
      EvidenceLedger P
      → String
      → Interval
      → Provenance
      → Bool
      → P
      → Result (LedgerEntry P × EvidenceLedger P)
  append l event_id interval provenance is_final payload = elim (lookup event_id l.history) [
    | some versions ↦ raised evidence_ledger_violation
    | none ↦
        let entry : LedgerEntry P = record {
          event_id = event_id;
          revision = 0;
          interval = interval;
          provenance = provenance;
          is_final = is_final;
          payload = payload;
        } in
        ok (entry, store l event_id (entry ∷ []))
  ]

  unfoldable pub revise :
      EvidenceLedger P
      → String
      → Interval
      → Provenance
      → Bool
      → P
      → Result (LedgerEntry P × EvidenceLedger P)
  revise l event_id interval provenance is_final payload = do
    versions ← versions_of l event_id
    current ← last versions
    raise_if current.is_final evidence_ledger_violation
    let entry : LedgerEntry P = record {
      event_id = event_id;
      revision = current.revision + 1;
      interval = interval;
      provenance = provenance;
      is_final = is_final;
      payload = payload;
    }
    ok (entry, store l event_id (versions ++ entry ∷ []))

  -- What `finalize` appends to a current version that is not final.
  abbrev frozen : String → LedgerEntry P → LedgerEntry P
  frozen event_id current = record current {
    event_id = event_id;
    revision = current.revision + 1;
    is_final = true;
  }

  abbrev freeze :
      EvidenceLedger P
      → String
      → List (LedgerEntry P)
      → LedgerEntry P
      → Bool
      → Result (LedgerEntry P × EvidenceLedger P)
  freeze l event_id versions current true = ok (current, l)
  freeze l event_id versions current false =
      ok (frozen event_id current, store l event_id (versions ++ frozen event_id current ∷ []))

  unfoldable pub finalize : EvidenceLedger P → String → Result (LedgerEntry P × EvidenceLedger P)
  finalize l event_id = do
    versions ← versions_of l event_id
    current ← last versions
    freeze l event_id versions current current.is_final

  unfoldable pub current : EvidenceLedger P → String → Result (LedgerEntry P)
  current l event_id = do versions ← versions_of l event_id; last versions

  unfoldable pub history_of : EvidenceLedger P → String → List (LedgerEntry P)
  history_of l event_id = elim (lookup event_id l.history) [ none ↦ [] | some versions ↦ versions ]

  -- `(e.interval.start.ms, e.interval.end.ms, e.event_id.value)`, compared as tuples
  unfoldable pub le_entry : LedgerEntry P → LedgerEntry P → Bool
  le_entry a b =
      ltb a.interval.start.ms b.interval.start.ms
      || (eqb a.interval.start.ms b.interval.start.ms
          && (ltb a.interval.end.ms b.interval.end.ms
              || (eqb a.interval.end.ms b.interval.end.ms && leb_text a.event_id b.event_id)))

  -- `[versions[-1] for versions in histories]`
  lasts : List (List (LedgerEntry P)) → Result (List (LedgerEntry P))
  lasts [] = ok []
  lasts (versions ∷ rest) = do e ← last versions; es ← lasts rest; ok (e ∷ es)

  -- `_ordered_current`, and `all_current`, which returns its items
  unfoldable pub all_current : EvidenceLedger P → Result (List (LedgerEntry P))
  unfolding lasts
  all_current l = do entries ← lasts (values l.history); ok (sort le_entry entries)

  unfoldable pub finalized : EvidenceLedger P → Result (List (LedgerEntry P))
  finalized l = do entries ← all_current l; ok (keep (λ e. e.is_final) entries)
