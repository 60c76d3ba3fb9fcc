-- ===== src/Sessions/Sequencing/Tests.antt =====
-- A run of the chunk ledger, and its theorems at that run.
use oratoria_engine.Prelude.{
  ℕ, ◌+◌, ◌<◌, ◌≡◌, refl, All, false, not, ◌&&◌, List, [], ◌∷◌, ltb, contains, nat_eq,
}
use oratoria_engine.Sessions.Sequencing.{
  ChunkLedger, new_ledger, accept, drain_ahead, offer_number, finalize, missing_count,
}
use oratoria_engine.Sessions.Sequencing.Gaps.{numbers, AreRuns}
use oratoria_engine.Sessions.Sequencing.Arrivals.{after}
use oratoria_engine.Sessions.Sequencing.Loss.{loss_exact, drain_never_moves, drain_ahead_ends}

-- Chunks 0, 1, 5, 3, 3 and 8 arrive in this order; the list has the latest first.
abbrev arrivals : List ℕ
arrivals = 8 ∷ 3 ∷ 3 ∷ 5 ∷ 1 ∷ 0 ∷ []

gaps_of_arrivals :
    (finalize (after arrivals)).gaps
    ≡ record { first_missing = 2; last_missing = 2 }
      ∷ record { first_missing = 4; last_missing = 4 }
      ∷ record { first_missing = 6; last_missing = 7 }
      ∷ []
unfolding finalize after offer_number accept drain_ahead
gaps_of_arrivals = refl

loss_exact_example :
    let l = finalize (after arrivals) in
    ((n : ℕ) → contains n (numbers l.gaps) ≡ (ltb n 9 && not (contains n arrivals)))
    × AreRuns l.gaps
    × (missing_count l + 6 ≡ 9 + l.duplicates)
loss_exact_example = loss_exact arrivals

drain_never_moves_example :
    let l = accept (after arrivals).expected (after arrivals) in
    (All (λ m. m < l.expected) l.seen_ahead) × (drain_ahead l ≡ l)
drain_never_moves_example = drain_never_moves arrivals

abbrev stuck : ChunkLedger
stuck = record new_ledger { expected = 3; seen_ahead = 4 ∷ 3 ∷ 6 ∷ [] }

drain_of_stuck : drain_ahead stuck ≡ record stuck { expected = 5; seen_ahead = 6 ∷ [] }
unfolding drain_ahead
drain_of_stuck = refl

drain_ahead_ends_example : let d = drain_ahead stuck in contains d.expected d.seen_ahead ≡ false
drain_ahead_ends_example = drain_ahead_ends stuck
