-- ===== src/Application/Streaming.antt =====
-- src/evidence_engine/application/workflows/streaming.py: the arrival of a chunk, up to the call of
-- the runtime, and the end of its processing. Other handlers run between the two, so a session is a
-- sequence of arrivals and ends. What is done with the runtime's answer stands in
-- Coordinator; telemetry is left out.
pub mod Backpressure
pub mod Resend
mod Tests
use oratoria_engine.Prelude.{
  ℕ, ◌+◌, ◌-◌, ◌<◌, String, Bool, true, false, List, [], ◌∷◌, ◌++◌, ltb, if◌then◌else◌,
}
use oratoria_engine.Prelude.Int.{ℤ}
use oratoria_engine.Shared.Errors.{Result, ok, raised, backpressure_required}
use oratoria_engine.Shared.Effects.{Action, pure, raises, reads, writes, ◌>>=◌, ◌>>◌}
use oratoria_engine.Shared.Provenance.{Modality, audio, video, multimodal}
use oratoria_engine.Sessions.Sequencing.{
  ChunkLedger, ChunkVerdict, accepted, duplicate, gap_detected, out_of_order, offer,
}

abbrev pub default_max_queue_depth : ℕ
default_max_queue_depth = 8

-- `StreamingState`, as far as arrivals and ends of processing reach it, and the requests that the
-- channel was asked to send.
pub record StreamingState : Type 0 where
  pub session_id : String
  pub audio_chunks : ChunkLedger
  pub video_chunks : ChunkLedger
  pub in_flight : ℕ
  pub backpressure_requests : List (String × ℕ)

unfoldable pub ledger_for : StreamingState → Modality → ChunkLedger
ledger_for w audio = w.audio_chunks
ledger_for w video = w.video_chunks
ledger_for w multimodal = w.video_chunks

unfoldable pub with_ledger : Modality → ChunkLedger → StreamingState → StreamingState
with_ledger audio l w = record w { audio_chunks = l }
with_ledger video l w = record w { video_chunks = l }
with_ledger multimodal l w = record w { video_chunks = l }

-- What an arrival leads to: the answer to a chunk seen before, or the call of the runtime.
pub data Ticket : Type 0 where
  answered : ChunkVerdict → Ticket
  processing : ChunkVerdict → Ticket

-- `_admit`
unfoldable pub admit : ℕ → Action StreamingState (Unit {0})
admit max_queue_depth = do
  in_flight ← reads (λ w. w.in_flight)
  if ltb in_flight max_queue_depth
      then pure tt
      else writes (λ w. record w {
        backpressure_requests = w.backpressure_requests ++ (w.session_id, w.in_flight) ∷ [];
      })
        >> raises backpressure_required

abbrev pub is_duplicate : ChunkVerdict → Bool
is_duplicate duplicate = true
is_duplicate _ = false

abbrev pub taken : ℕ → ChunkVerdict → Action StreamingState Ticket
taken max_queue_depth verdict = if is_duplicate verdict then pure (answered verdict) else do
  admit max_queue_depth
  writes (λ w. record w { in_flight = w.in_flight + 1 })
  pure (processing verdict)

-- `verdict = ledger.offer(sequence)`
abbrev offered : Modality → Result (ChunkVerdict × ChunkLedger) → Action StreamingState ChunkVerdict
offered modality (raised e) = raises e
offered modality (ok (verdict, l)) = do writes (with_ledger modality l); pure verdict

-- `ingest_audio` and `ingest_video`, up to the `await` of the runtime
unfoldable pub arrive : ℕ → Modality → ℤ → Action StreamingState Ticket
unfolding admit
arrive max_queue_depth modality sequence = do
  l ← reads (λ w. ledger_for w modality)
  verdict ← offered modality (offer sequence l)
  taken max_queue_depth verdict

-- The `finally` of both.
unfoldable pub leave : StreamingState → StreamingState
leave w = record w { in_flight = w.in_flight - 1 }

-- One step of a session. A processing ends only if it began.
pub data Step (depth : ℕ) : StreamingState → StreamingState → Type 0 where
  arrives :
      (w : StreamingState) (modality : Modality) (sequence : ℤ)
      → Step depth w (arrive depth modality sequence w).1
  leaves : (w : StreamingState) → 0 < w.in_flight → Step depth w (leave w)

pub data Steps (depth : ℕ) : StreamingState → StreamingState → Type 0 where
  done : (w : StreamingState) → Steps depth w w
  step : {w w' w'' : StreamingState} → Step depth w w' → Steps depth w' w'' → Steps depth w w''
