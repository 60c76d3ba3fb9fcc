-- ===== src/Evidence/Ledger/Histories.antt =====
-- The invariant of the ledger: each event has one version at least, its versions carry its
-- identifier and the revisions 0, 1, 2, …, and no version but the last is final.
use oratoria_engine.Prelude.{
  ℕ, suc, ◌+◌, ◌≡◌, refl, String, Bool, false, none, some, List, [], ◌∷◌, ◌++◌, arith, get_last?,
  lookup, Items, Items-insert, Items-lookup, Option-cases, inl, inr, Bool-cases, string_eq, subst,
  sym,
}
use oratoria_engine.Shared.Errors.{Result, ok, raised}
use oratoria_engine.Shared.Timeline.{Interval}
use oratoria_engine.Shared.Provenance.{Provenance}
use oratoria_engine.Evidence.Ledger.{LedgerEntry, EvidenceLedger, append, revise, finalize, store}

module _ {P : Type 0} where
  -- Versions of the event `id`, the first with revision `n`.
  abbrev pub IsHistory : String → ℕ → List (LedgerEntry P) → Type 0
  IsHistory id n [] = ⊥
  IsHistory id n (e ∷ []) = (e.event_id ≡ id) × (e.revision ≡ n)
  IsHistory id n (e ∷ f ∷ es) =
      (e.event_id ≡ id) × (e.revision ≡ n) × (e.is_final ≡ false) × IsHistory id (suc n) (f ∷ es)

  abbrev pub IsWellFormed : EvidenceLedger P → Type 0
  IsWellFormed l = Items (λ id versions. IsHistory id 0 versions) l.history

  -- A version more, after a last one that is not final.
  IsHistory-snoc :
      (id : String) (n : ℕ) (versions : List (LedgerEntry P)) (e f : LedgerEntry P)
      → IsHistory id n versions
      → get_last? versions ≡ some e
      → e.is_final ≡ false
      → f.event_id ≡ id
      → f.revision ≡ e.revision + 1
      → IsHistory id n (versions ++ f ∷ [])
  IsHistory-snoc id n [] e f h q p i r = elim h [ ]
  IsHistory-snoc id n (x ∷ []) e f h q p i r = ground arith
  IsHistory-snoc id n (x ∷ y ∷ ys) e f h q p i r =
      (h.0, h.1, h.2, IsHistory-snoc id (suc n) (y ∷ ys) e f h.3 q p i r)

pub data Op (P : Type 0) : Type 0 where
  appends revises : String → Interval → Provenance → Bool → P → Op P
  finalizes : String → Op P

-- How one call can change the ledger: not at all, by the first version of a new event, or by one
-- version more after a last one that is not final.
pub data Change {P : Type 0} (l l' : EvidenceLedger P) : Type 0 where
  same : l' ≡ l → Change l l'
  opened :
      (id : String) (e : LedgerEntry P)
      → lookup id l.history ≡ none
      → e.event_id ≡ id
      → e.revision ≡ 0
      → l' ≡ store l id (e ∷ [])
      → Change l l'
  extended :
      (id : String) (versions : List (LedgerEntry P)) (e f : LedgerEntry P)
      → lookup id l.history ≡ some versions
      → get_last? versions ≡ some e
      → e.is_final ≡ false
      → f.event_id ≡ id
      → f.revision ≡ e.revision + 1
      → l' ≡ store l id (versions ++ f ∷ [])
      → Change l l'

module _ {P : Type 0} where
  unfoldable pub step : Op P → EvidenceLedger P → Result (LedgerEntry P × EvidenceLedger P)
  step (appends id i p f x) l = append l id i p f x
  step (revises id i p f x) l = revise l id i p f x
  step (finalizes id) l = finalize l id

  -- A call that raises leaves the ledger as it was.
  abbrev pub after : EvidenceLedger P → Result (LedgerEntry P × EvidenceLedger P) → EvidenceLedger P
  after l (ok (e, l')) = l'
  after l (raised x) = l

  unfoldable pub run : List (Op P) → EvidenceLedger P → EvidenceLedger P
  run [] l = l
  run (op ∷ ops) l = run ops (after l (step op l))

  module _ (l : EvidenceLedger P) (id : String) where
    append-Change :
        (i : Interval) (p : Provenance) (f : Bool) (x : P)
        → Change l (after l (append l id i p f x))
    unfolding append
    append-Change i p f x = elim (Option-cases (lookup id l.history)) [
      | inl e ↦ rw (e, after) (opened id _ e refl refl refl)
      | inr (v, e) ↦ rw (e, after) (same refl)
    ]

    revise-Change :
        (i : Interval) (p : Provenance) (f : Bool) (x : P)
        → Change l (after l (revise l id i p f x))
    unfolding revise
    revise-Change i p f x = elim (Option-cases (lookup id l.history)) [
      | inl e ↦ rw (e, after) (same refl)
      | inr (v, e) ↦ elim (Option-cases (get_last? v)) [
        | inl g ↦ rw (e, g, after) (same refl)
        | inr (c, g) ↦ elim (Bool-cases c.is_final) [
          | inl b ↦ rw (e, g, b, after) (same refl)
          | inr b ↦ rw (e, g, b, after) (extended id v c _ e g b refl refl refl)
        ]
      ]
    ]

    finalize-Change : Change l (after l (finalize l id))
    unfolding finalize
    finalize-Change = elim (Option-cases (lookup id l.history)) [
      | inl e ↦ rw (e, after) (same refl)
      | inr (v, e) ↦ elim (Option-cases (get_last? v)) [
        | inl g ↦ rw (e, g, after) (same refl)
        | inr (c, g) ↦ elim (Bool-cases c.is_final) [
          | inl b ↦ rw (e, g, b, after) (same refl)
          | inr b ↦ rw (e, g, b, after) (extended id v c _ e g b refl refl refl)
        ]
      ]
    ]

  pub step-Change : (op : Op P) (l : EvidenceLedger P) → Change l (after l (step op l))
  unfolding step
  step-Change (appends id i p f x) l = append-Change l id i p f x
  step-Change (revises id i p f x) l = revise-Change l id i p f x
  step-Change (finalizes id) l = finalize-Change l id

  Change-IsWellFormed : {l l' : EvidenceLedger P} → Change l l' → IsWellFormed l → IsWellFormed l'
  Change-IsWellFormed (same q) h = subst IsWellFormed (sym q) h
  Change-IsWellFormed {l} (opened id e n i r q) h =
      subst IsWellFormed (sym q)
        (Items-insert (λ id v. IsHistory id 0 v) id (e ∷ []) l.history (i, r) h)
  Change-IsWellFormed {l} (extended id v e f n g b i r q) h = subst IsWellFormed (sym q) (
      Items-insert (λ id v. IsHistory id 0 v) id (v ++ f ∷ []) l.history
        (IsHistory-snoc id 0 v e f (Items-lookup (λ id v. IsHistory id 0 v) id v l.history h n) g b
          i r)
        h)

  -- Whatever calls are made, failing ones included, every event keeps at least one version, its
  -- versions carry its identifier and the revisions 0, 1, 2, …, and only the last can be final.
  pub run-IsWellFormed :
      (ops : List (Op P)) (l : EvidenceLedger P) → IsWellFormed l → IsWellFormed (run ops l)
  unfolding run
  run-IsWellFormed [] l h = h
  run-IsWellFormed (op ∷ ops) l h =
      run-IsWellFormed ops (after l (step op l)) (Change-IsWellFormed (step-Change op l) h)
