-- ===== src/Application/Streaming/Backpressure.antt =====
-- The bounded queue, and the chunk that it refuses.
use oratoria_engine.Prelude.{
  zero, suc, length, ℕ, ◌+◌, ◌≤◌, ◌<◌, ◌≡◌, ◌⊎◌, inl, inr, refl, true, [], ◌∷◌, ◌++◌, arith, ltb,
  contains, nat_eq, Bool-cases,
}
use oratoria_engine.Prelude.Int.{pos, negsuc}
use oratoria_engine.Shared.Provenance.{Modality, audio, video, multimodal}
use oratoria_engine.Sessions.Sequencing.{
  ChunkLedger, ChunkVerdict, offer, offer_number, drain_once, drain_rounds, drain_ahead, accept,
}
use oratoria_engine.Application.Streaming.{
  StreamingState, ledger_for, with_ledger, admit, arrive, leave, Step, arrives, leaves, Steps, done,
  step, taken, is_duplicate,
}

seen-drain_rounds : (f : ℕ) (l : ChunkLedger) → (drain_rounds f l).seen ≡ l.seen
unfolding drain_rounds drain_once
seen-drain_rounds zero l = refl
seen-drain_rounds (suc f) l = ground (arith, seen-drain_rounds f (drain_once l))

seen-drain_ahead : (l : ChunkLedger) → (drain_ahead l).seen ≡ l.seen
unfolding drain_ahead
seen-drain_ahead l = seen-drain_rounds (length l.seen_ahead) l

-- A number that was seen stays seen, and the one that is offered is seen.
pub offer_number-grows :
    (n q : ℕ) (l : ChunkLedger)
    → contains n l.seen ≡ true
    → contains n (offer_number q l).1.seen ≡ true
unfolding offer_number accept
offer_number-grows n q l h = ground (arith, h, seen-drain_ahead (accept q l))

pub offer_number-seen : (n : ℕ) (l : ChunkLedger) → contains n (offer_number n l).1.seen ≡ true
unfolding offer_number accept
offer_number-seen n l = ground (arith, seen-drain_ahead (accept n l))

abbrev pub WasSeen : Modality → ℕ → StreamingState → Type 0
WasSeen m n w = contains n (ledger_for w m).seen ≡ true

module _ (depth : ℕ) where
  pub arrive_lem :
      (m : Modality) (n : ℕ) (w : StreamingState)
      → arrive depth m (pos n) w
        ≡ taken depth
            (offer_number n (ledger_for w m)).0
            (with_ledger m (offer_number n (ledger_for w m)).1 w)
  unfolding arrive offer
  arrive_lem m n w = refl

  pub arrive-negsuc :
      (m : Modality) (n : ℕ) (w : StreamingState) → (arrive depth m (negsuc n) w).1 ≡ w
  unfolding arrive offer
  arrive-negsuc m n w = refl

  -- What an arrival does to the state, besides its ledger.
  taken_reaches :
      (v : ChunkVerdict) (w : StreamingState)
      → ((taken depth v w).1 ≡ w)
        ⊎ (((taken depth v w).1 ≡ record w { in_flight = w.in_flight + 1 }) × (w.in_flight < depth))
        ⊎ ((taken depth v w).1 ≡ record w {
          backpressure_requests = w.backpressure_requests ++ (w.session_id, w.in_flight) ∷ [];
        })
  unfolding admit
  taken_reaches v w = elim (Bool-cases (is_duplicate v)) [
    | inl d ↦ inl (rw d refl)
    | inr d ↦ elim (Bool-cases (ltb w.in_flight depth)) [
      | inl a ↦ inr (inl (rw (d, a) refl, ground (arith, a)))
      | inr a ↦ inr (inr (rw (d, a) refl))
    ]
  ]

  taken-bound :
      (v : ChunkVerdict) (w : StreamingState)
      → w.in_flight ≤ depth
      → (taken depth v w).1.in_flight ≤ depth
  taken-bound v w h = elim (taken_reaches v w) [
    | inl e ↦ rw e h
    | inr (inl (e, a)) ↦ rw e (omega (arith, a))
    | inr (inr e) ↦ rw e h
  ]

  pub taken-ledger :
      (v : ChunkVerdict) (m : Modality) (w : StreamingState)
      → ledger_for (taken depth v w).1 m ≡ ledger_for w m
  unfolding ledger_for
  taken-ledger v audio w = elim (taken_reaches v w) [
    | inl e ↦ rw e refl
    | inr (inl (e, a)) ↦ rw e refl
    | inr (inr e) ↦ rw e refl
  ]
  taken-ledger v video w = elim (taken_reaches v w) [
    | inl e ↦ rw e refl
    | inr (inl (e, a)) ↦ rw e refl
    | inr (inr e) ↦ rw e refl
  ]
  taken-ledger v multimodal w = elim (taken_reaches v w) [
    | inl e ↦ rw e refl
    | inr (inl (e, a)) ↦ rw e refl
    | inr (inr e) ↦ rw e refl
  ]

  pub with_ledger-in_flight :
      (m : Modality) (l : ChunkLedger) (w : StreamingState)
      → (with_ledger m l w).in_flight ≡ w.in_flight
  unfolding with_ledger
  with_ledger-in_flight audio l w = refl
  with_ledger-in_flight video l w = refl
  with_ledger-in_flight multimodal l w = refl

  Step-bound :
      {w w' : StreamingState} → Step depth w w' → w.in_flight ≤ depth → w'.in_flight ≤ depth
  unfolding leave
  Step-bound (arrives w m (pos n)) h = rw (arrive_lem m n w) (
      taken-bound (offer_number n (ledger_for w m)).0
        (with_ledger m (offer_number n (ledger_for w m)).1 w)
        (omega (arith, h, with_ledger-in_flight m (offer_number n (ledger_for w m)).1 w)))
  Step-bound (arrives w m (negsuc n)) h = rw (arrive-negsuc m n w) h
  Step-bound (leaves w a) h = omega (arith, h)

  -- The queue is bounded: over any interleaving of arrivals, of either modality and with any
  -- sequence numbers, and of ends of processing, the number of windows in flight never passes the
  -- queue's depth, if it did not at the start.
  pub in_flight-bound :
      {w w' : StreamingState} → Steps depth w w' → w.in_flight ≤ depth → w'.in_flight ≤ depth
  in_flight-bound (done w) h = h
  in_flight-bound (step s t) h = in_flight-bound t (Step-bound s h)
