-- ===== src/Application/Streaming/Tests.antt =====
-- A queue of one window that is full, and the theorems at it.
use oratoria_engine.Prelude.{◌≤◌, ◌≡◌, refl, false, [], contains, nat_eq, arith}
use oratoria_engine.Prelude.Int.{pos}
use oratoria_engine.Shared.Errors.{ok, raised, backpressure_required}
use oratoria_engine.Shared.Provenance.{audio}
use oratoria_engine.Sessions.Sequencing.{new_ledger, offer, offer_number, duplicate, finalize}
use oratoria_engine.Sessions.Sequencing.Gaps.{numbers}
use oratoria_engine.Application.Streaming.{
  StreamingState, answered, ledger_for, with_ledger, arrive, leave, Steps, arrives, leaves, done,
  step,
}
use oratoria_engine.Application.Streaming.Backpressure.{in_flight-bound}
use oratoria_engine.Application.Streaming.Resend.{refused_is_lost}

abbrev full : StreamingState
full = record {
  session_id = "s1";
  audio_chunks = new_ledger;
  video_chunks = new_ledger;
  in_flight = 1;
  backpressure_requests = [];
}

abbrev refused : StreamingState
refused = (arrive 1 audio (pos 0) full).1

unseen : contains 0 (ledger_for full audio).seen ≡ false
unfolding ledger_for
unseen = refl

-- The chunk is refused and another window ends.
drained : Steps 1 refused (leave refused)
unfolding arrive offer offer_number ledger_for with_ledger
drained = step (leaves refused (omega arith)) (done (leave refused))

in_flight-bound_example : (leave refused).in_flight ≤ 1
in_flight-bound_example =
    in_flight-bound 1 (step (arrives full audio (pos 0)) drained) (omega arith)

refused_is_lost_example :
    ((arrive 1 audio (pos 0) full).0 ≡ raised backpressure_required)
    × ((arrive 1 audio (pos 0) (leave refused)).0 ≡ ok (answered duplicate))
    × (contains 0 (numbers (finalize (ledger_for (leave refused) audio)).gaps) ≡ false)
refused_is_lost_example =
    refused_is_lost 1 audio 0 full (leave refused) unseen (omega arith) drained
