-- ===== src/Evidence/Ledger/Tests.antt =====
-- A small ledger, and the theorems at it.
use oratoria_engine.Prelude.{◌≡◌, refl, String, Bool, true, false, List, [], ◌∷◌, lookup}
use oratoria_engine.Shared.Errors.{ok, raised, evidence_ledger_violation}
use oratoria_engine.Shared.Timeline.{Interval}
use oratoria_engine.Shared.Provenance.{Provenance, audio}
use oratoria_engine.Evidence.Ledger.{
  LedgerEntry, EvidenceLedger, append, revise, finalize, current, history_of,
}
use oratoria_engine.Evidence.Ledger.Histories.{
  Op, appends, revises, finalizes, run, IsWellFormed, run-IsWellFormed,
}
use oratoria_engine.Evidence.Ledger.Freeze.{final_is_frozen}

abbrev span : Interval
span = record { start = record { ms = 100 }; end = record { ms = 250 }; tolerance_ms = 250 }

abbrev source : Provenance
source = record {
  modality = audio;
  model_version = "m1";
  taxonomy_version = record { major = 1; minor = 0; patch = 0 };
  configuration = "c1";
  evidence_ref = "audio:r1";
}

abbrev entry_a : LedgerEntry String
entry_a = record {
  event_id = "a";
  revision = 0;
  interval = span;
  provenance = source;
  is_final = true;
  payload = "x";
}

abbrev entry_b : LedgerEntry String
entry_b = record entry_a { event_id = "b"; is_final = false }

abbrev ledger : EvidenceLedger String
ledger = record { run_id = "r1"; history = ("a", entry_a ∷ []) ∷ ("b", entry_b ∷ []) ∷ [] }

ledger-IsWellFormed : IsWellFormed ledger
ledger-IsWellFormed = ((refl, refl), ((refl, refl), tt))

abbrev calls : List (Op String)
calls =
    revises "a" span source false "y"
    ∷ revises "b" span source false "z"
    ∷ finalizes "b"
    ∷ appends "c" span source false "w"
    ∷ []

run-IsWellFormed_example : IsWellFormed (run calls ledger)
run-IsWellFormed_example = run-IsWellFormed calls ledger ledger-IsWellFormed

final_is_frozen_example :
    (history_of (run calls ledger) "a" ≡ history_of ledger "a")
    × ((i : Interval) (p : Provenance) (f : Bool) (x : String)
        → (revise ledger "a" i p f x ≡ raised evidence_ledger_violation)
          × (append ledger "a" i p f x ≡ raised evidence_ledger_violation))
    × (finalize ledger "a" ≡ ok (entry_a, ledger))
unfolding current lookup
final_is_frozen_example = final_is_frozen calls ledger "a" entry_a refl refl

abbrev frozen_b : LedgerEntry String
frozen_b = record entry_b { revision = 1; is_final = true }

abbrev ledger_after : EvidenceLedger String
ledger_after = record ledger { history = ("a", entry_a ∷ []) ∷ ("b", entry_b ∷ frozen_b ∷ []) ∷ [] }
