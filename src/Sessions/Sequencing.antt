-- ===== src/Sessions/Sequencing.antt =====
-- src/evidence_engine/domain/sessions/sequencing.py: the ledger of a modality's chunks. The field
-- `expected` is `highest_seen + 1`, so that the -1 before the first chunk is 0. The two Python sets
-- are lists without repetition.
pub mod Arrivals
pub mod Loss
pub mod Gaps
pub mod Missing
mod Tests
use oratoria_engine.Prelude.{
  ℕ, zero, suc, ◌+◌, ◌-◌, Bool, not, List, [], ◌∷◌, ◌++◌, ltb, eqb, ◌==◌, nat_eq, contains, add,
  discard, keep, length, max, if◌then◌else◌, map,
}
use oratoria_engine.Prelude.Int.{ℤ, pos, negsuc, sub_ℕ}
use oratoria_engine.Shared.Errors.{Result, ok, raised, value_error}

pub data ChunkVerdict : Type 0 where
  accepted duplicate gap_detected out_of_order : ChunkVerdict

pub record SequenceGap : Type 0 where
  pub first_missing : ℕ
  pub last_missing : ℕ

-- `SequenceGap.count`; a gap that `_collapse` builds is never inverted
unfoldable pub count : SequenceGap → ℕ
count g = g.last_missing + 1 - g.first_missing

pub record ChunkLedger : Type 0 where
  pub expected : ℕ
  pub seen_ahead : List ℕ
  pub seen : List ℕ
  pub gaps : List SequenceGap
  pub duplicates : ℕ

abbrev pub new_ledger : ChunkLedger
new_ledger = record { expected = 0; seen_ahead = []; seen = []; gaps = []; duplicates = 0 }

unfoldable pub highest_seen : ChunkLedger → ℤ
highest_seen l = sub_ℕ l.expected 1

-- `_accept`
unfoldable pub accept : ℕ → ChunkLedger → ChunkLedger
accept sequence l = record l {
  seen = add sequence l.seen;
  expected = max l.expected (suc sequence);
}

-- One round of the `while` of `_drain_ahead`.
unfoldable pub drain_once : ChunkLedger → ChunkLedger
drain_once l = record l { seen_ahead = discard l.expected l.seen_ahead; expected = suc l.expected }

-- The `while` of `_drain_ahead`. Each round takes one number out of `seen_ahead`, so as many
-- rounds as it has numbers are enough.
unfoldable pub drain_rounds : ℕ → ChunkLedger → ChunkLedger
unfolding drain_once
drain_rounds zero l = l
drain_rounds (suc fuel) l =
    let rest = drain_rounds fuel (drain_once l) in
    if contains l.expected l.seen_ahead then rest else l

-- `_drain_ahead`
unfoldable pub drain_ahead : ChunkLedger → ChunkLedger
unfolding drain_rounds
drain_ahead l = drain_rounds (length l.seen_ahead) l

-- `offer` of a sequence number that is not negative
unfoldable pub offer_number : ℕ → ChunkLedger → ChunkVerdict × ChunkLedger
offer_number sequence l =
    if contains sequence l.seen
    then (duplicate, record l { duplicates = l.duplicates + 1 })
    else if sequence == l.expected
    then (accepted, drain_ahead (accept sequence l))
    else if ltb l.expected sequence
    then (gap_detected, accept sequence (record l { seen_ahead = add sequence l.seen_ahead }))
    else (out_of_order, accept sequence l)

unfoldable pub offer : ℤ → ChunkLedger → Result (ChunkVerdict × ChunkLedger)
offer (negsuc n) l = raised value_error
offer (pos sequence) l = ok (offer_number sequence l)

-- `sorted(set(range(n)) - seen)`
unfoldable pub missing_below : List ℕ → ℕ → List ℕ
missing_below seen zero = []
missing_below seen (suc n) =
    let earlier = missing_below seen n in if contains n seen then earlier else earlier ++ n ∷ []

-- The `for` of `_collapse`, with the run in progress.
unfoldable pub collapse_from : ℕ → ℕ → List ℕ → List SequenceGap
collapse_from start previous [] = record { first_missing = start; last_missing = previous } ∷ []
collapse_from start previous (number ∷ rest) =
    let longer = collapse_from start number rest in
    let closed =
      record { first_missing = start; last_missing = previous }
      ∷ collapse_from number number rest in
    if number == previous + 1 then longer else closed

-- `_collapse`
unfoldable pub collapse : List ℕ → List SequenceGap
unfolding collapse_from
collapse [] = []
collapse (first ∷ rest) = collapse_from first first rest

-- `ChunkLedger.finalize`
unfoldable pub finalize : ChunkLedger → ChunkLedger
unfolding missing_below collapse
finalize l = record l { gaps = collapse (missing_below l.seen l.expected) }

abbrev sum : List ℕ → ℕ
sum [] = 0
sum (n ∷ l) = n + sum l

unfoldable pub missing_count : ChunkLedger → ℕ
unfolding count
missing_count l = sum (map count l.gaps)
