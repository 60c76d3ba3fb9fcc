-- ===== src/Application/Streaming/Resend.antt =====
-- A chunk that is sent again.
use oratoria_engine.Prelude.{ℕ, ◌≤◌, ◌≡◌, refl, true, false, arith, ltb, contains, nat_eq}
use oratoria_engine.Prelude.Int.{pos, negsuc}
use oratoria_engine.Shared.Errors.{ok, raised, backpressure_required}
use oratoria_engine.Shared.Provenance.{Modality, audio, video, multimodal}
use oratoria_engine.Sessions.Sequencing.{
  ChunkLedger, duplicate, offer_number, finalize, missing_below,
}
use oratoria_engine.Sessions.Sequencing.Gaps.{numbers, numbers-collapse}
use oratoria_engine.Sessions.Sequencing.Missing.{missing_below-Ascending, contains-missing_below}
use oratoria_engine.Application.Streaming.{
  StreamingState, answered, ledger_for, with_ledger, admit, arrive, leave, Step, arrives, leaves,
  Steps, done, step, is_duplicate,
}
use oratoria_engine.Application.Streaming.Backpressure.{
  WasSeen, arrive_lem, arrive-negsuc, taken-ledger, with_ledger-in_flight, offer_number-grows,
  offer_number-seen,
}

-- Replacing one ledger by one that has seen more keeps what was seen, of either modality.
with_ledger-WasSeen :
    (m k : Modality) (n : ℕ) (l : ChunkLedger) (w : StreamingState)
    → (contains n (ledger_for w m).seen ≡ true → contains n l.seen ≡ true)
    → WasSeen k n w
    → WasSeen k n (with_ledger m l w)
unfolding with_ledger ledger_for
with_ledger-WasSeen audio audio n l w g h = g h
with_ledger-WasSeen audio video n l w g h = h
with_ledger-WasSeen audio multimodal n l w g h = h
with_ledger-WasSeen video audio n l w g h = h
with_ledger-WasSeen video video n l w g h = g h
with_ledger-WasSeen video multimodal n l w g h = g h
with_ledger-WasSeen multimodal audio n l w g h = h
with_ledger-WasSeen multimodal video n l w g h = g h
with_ledger-WasSeen multimodal multimodal n l w g h = g h

with_ledger-same :
    (m : Modality) (l : ChunkLedger) (w : StreamingState) → ledger_for (with_ledger m l w) m ≡ l
unfolding with_ledger ledger_for
with_ledger-same audio l w = refl
with_ledger-same video l w = refl
with_ledger-same multimodal l w = refl

not_reported :
    (n : ℕ) (l : ChunkLedger)
    → contains n l.seen ≡ true
    → contains n (numbers (finalize l).gaps) ≡ false
unfolding finalize
not_reported n l h = ground (
  arith,
  h,
  numbers-collapse (missing_below l.seen l.expected) (missing_below-Ascending l.seen l.expected),
  contains-missing_below l.seen l.expected n,
)

fresh_verdict :
    (n : ℕ) (l : ChunkLedger)
    → contains n l.seen ≡ false
    → is_duplicate (offer_number n l).0 ≡ false
unfolding offer_number
fresh_verdict n l h = ground (arith, h)

module _ (depth : ℕ) where
  Step-WasSeen :
      {w w' : StreamingState} (k : Modality) (n : ℕ)
      → Step depth w w'
      → WasSeen k n w
      → WasSeen k n w'
  unfolding leave ledger_for
  Step-WasSeen k n (arrives w m (pos q)) h =
      let (v, l) = offer_number q (ledger_for w m) in
      rw
        (
          arrive_lem depth m q w,
          taken-ledger depth (offer_number q (ledger_for w m)).0 k
              (with_ledger m (offer_number q (ledger_for w m)).1 w),
        )
        (with_ledger-WasSeen m k n (offer_number q (ledger_for w m)).1 w
          (offer_number-grows n q (ledger_for w m)) h)
  Step-WasSeen k n (arrives w m (negsuc q)) h = rw (arrive-negsuc depth m q w) h
  Step-WasSeen audio n (leaves w a) h = h
  Step-WasSeen video n (leaves w a) h = h
  Step-WasSeen multimodal n (leaves w a) h = h

  Steps-WasSeen :
      {w w' : StreamingState} (k : Modality) (n : ℕ)
      → Steps depth w w'
      → WasSeen k n w
      → WasSeen k n w'
  Steps-WasSeen k n (done w) h = h
  Steps-WasSeen k n (step s t) h = Steps-WasSeen k n t (Step-WasSeen k n s h)

  arrive-WasSeen :
      (m : Modality) (n : ℕ) (w : StreamingState) → WasSeen m n (arrive depth m (pos n) w).1
  arrive-WasSeen m n w =
      rw
        (
          arrive_lem depth m n w,
          taken-ledger depth (offer_number n (ledger_for w m)).0 m
              (with_ledger m (offer_number n (ledger_for w m)).1 w),
          with_ledger-same m (offer_number n (ledger_for w m)).1 w,
        )
        (offer_number-seen n (ledger_for w m))

  repeated_lem :
      (m : Modality) (n : ℕ) (w : StreamingState)
      → WasSeen m n w
      → (arrive depth m (pos n) w).0 ≡ ok (answered duplicate)
  unfolding offer_number
  repeated_lem m n w h = rw (arrive_lem depth m n w, h) refl

  -- A chunk is processed at most once. After it has arrived, accepted or refused, whatever arrives
  -- and ends in between, its arrival again is answered as a duplicate.
  pub resend_is_duplicate :
      (m : Modality) (n : ℕ) (w w' : StreamingState)
      → Steps depth (arrive depth m (pos n) w).1 w'
      → (arrive depth m (pos n) w').0 ≡ ok (answered duplicate)
  resend_is_duplicate m n w w' s = repeated_lem m n w' (Steps-WasSeen m n s (arrive-WasSeen m n w))

  refused_lem :
      (m : Modality) (n : ℕ) (w : StreamingState)
      → (is_duplicate (offer_number n (ledger_for w m)).0 ≡ false)
      → ltb w.in_flight depth ≡ false
      → (arrive depth m (pos n) w).0 ≡ raised backpressure_required
  unfolding admit
  refused_lem m n w d f =
      rw
        (
          arrive_lem depth m n w,
          d,
          with_ledger-in_flight depth m (offer_number n (ledger_for w m)).1 w,
          f,
        )
        refl

  -- A chunk that backpressure refuses is lost. When the queue is full, the arrival of a new chunk
  -- raises `BackpressureRequired`; from then on, whatever arrives and ends, sending it again is
  -- answered as a duplicate, and the closing report of missing chunks does not list it.
  pub refused_is_lost :
      (m : Modality) (n : ℕ) (w w' : StreamingState)
      → contains n (ledger_for w m).seen ≡ false
      → depth ≤ w.in_flight
      → Steps depth (arrive depth m (pos n) w).1 w'
      → ((arrive depth m (pos n) w).0 ≡ raised backpressure_required)
        × ((arrive depth m (pos n) w').0 ≡ ok (answered duplicate))
        × (contains n (numbers (finalize (ledger_for w' m)).gaps) ≡ false)
  refused_is_lost m n w w' h f s = (
    refused_lem m n w (fresh_verdict n (ledger_for w m) h) (ground (arith, f)),
    resend_is_duplicate m n w w' s,
    not_reported n (ledger_for w' m) (Steps-WasSeen m n s (arrive-WasSeen m n w)),
  )
