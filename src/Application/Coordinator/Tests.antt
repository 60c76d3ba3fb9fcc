-- ===== src/Application/Coordinator/Tests.antt =====
-- Runs of the theorems on one session.
use oratoria_engine.Prelude.{
  ℕ, ◌+◌, String, Bool, true, false, leb, none, some, [], ◌∷◌, lookup, insert, sort, string_eq, ◌≡◌,
  refl,
}
use oratoria_engine.Prelude.Int.{pos}
use oratoria_engine.Shared.Errors.{ok}
use oratoria_engine.Shared.Provenance.{
  Modality, Provenance, audio, video, modality_eq, same_modality,
}
use oratoria_engine.Shared.Measurement.{Floats, calibrated}
use oratoria_engine.Shared.Taxonomy.{filled_pause}
use oratoria_engine.Transcript.{with_provisional, finalized_frontier, finalize_through}
use oratoria_engine.Shared.Timeline.{monotonic_time}
use oratoria_engine.Events.Speech.{SpeechEvent, finalize, speech_event}
use oratoria_engine.Evidence.Ledger
use oratoria_engine.Application.Assembly.Speech.{AssembledSpeech}
use oratoria_engine.Application.Assembly.Visual.{AssembledVisual}
use oratoria_engine.Application.Coordinator.{Live, Payload, absorb_speech, absorb_visual, degrade}
use oratoria_engine.Application.Coordinator.Keeping.{KeepsFinal}
use oratoria_engine.Application.Coordinator.Frozen.{coordinator-KeepsFinal}
use oratoria_engine.Application.Coordinator.Degraded.{notices, fail_all, notices-fail_all}
use oratoria_engine.Application.Coordinator.Redecoded.{redecoded_diverges}

abbrev milli : Floats
milli = record { F = ℕ; le = leb; zero = 0; one = 1000 }

abbrev no_hash : String → String
no_hash s = s

abbrev heard : Provenance
heard = record {
  modality = audio;
  model_version = "asr-3";
  taxonomy_version = record { major = 1; minor = 0; patch = 0 };
  configuration = "cfg";
  evidence_ref = "audio:r1";
}

abbrev eh : Bool → SpeechEvent ℕ
eh is_final = record {
  id = "ev_1";
  type = filled_pause;
  interval = record { start = record { ms = 100 }; end = record { ms = 400 }; tolerance_ms = 250 };
  confidence = record { value = 800; state = calibrated };
  provenance = heard;
  raw_text = "";
  context_role = none;
  is_final = is_final;
}

abbrev entry : Ledger.LedgerEntry Payload
entry = record {
  event_id = "ev_1";
  revision = 0;
  interval = (eh true).interval;
  provenance = heard;
  is_final = true;
  payload = record { type = "filled_pause"; raw_text = "" };
}

abbrev live : Live ℕ
live = record {
  transcript = record { tokens = [] };
  speech_events = ("ev_1", eh true) ∷ [];
  visual_events = [];
  prosody = [];
  quality = record { assessments = []; availability = [] };
  degraded_modalities = [];
  ledger = record { run_id = "r1"; history = ("ev_1", entry ∷ []) ∷ [] };
  published = [];
}

coordinator-KeepsFinal_example :
    ((a : AssembledSpeech ℕ)
      → KeepsFinal live.ledger (absorb_speech milli no_hash "r1" 700 a live).1.ledger)
    × ((v : AssembledVisual ℕ) → KeepsFinal live.ledger (absorb_visual v live).1.ledger)
    × ((m : Modality) → KeepsFinal live.ledger (degrade m live).1.ledger)
coordinator-KeepsFinal_example = coordinator-KeepsFinal milli no_hash "r1" 700 live

notices-fail_all_example :
    notices video (fail_all (audio ∷ video ∷ video ∷ []) live).published
    ≡ notices video live.published + 1
unfolding same_modality
notices-fail_all_example = notices-fail_all video (audio ∷ video ∷ video ∷ []) live

-- The second decoding of the stretch hears another text.
abbrev heard_again : SpeechEvent ℕ
heard_again = record (eh false) { raw_text = "eeh" }

abbrev answer : AssembledSpeech ℕ
answer = record {
  tokens = [];
  events = heard_again ∷ [];
  prosody = [];
  stable_through_ms = pos 500;
}

abbrev after : Live ℕ
after = (absorb_speech milli no_hash "r1" 700 answer live).1

in_ledger : Ledger.current live.ledger "ev_1" ≡ ok entry
unfolding Ledger.current lookup
in_ledger = refl

processed : absorb_speech milli no_hash "r1" 700 answer live ≡ (ok tt, after)
unfolding absorb_speech with_provisional sort finalized_frontier monotonic_time finalize_through
    insert finalize speech_event same_modality lookup Ledger.finalize
processed = refl

redecoded_diverges_example :
    (lookup "ev_1" after.speech_events ≡ some (record heard_again { is_final = true }))
    × (Ledger.current after.ledger "ev_1" ≡ ok entry)
unfolding with_provisional lookup insert finalized_frontier sort
redecoded_diverges_example =
    redecoded_diverges milli no_hash "r1" 700 live after answer heard_again entry
      (record { tokens = [] }) (refl, refl, tt) in_ledger refl refl refl refl refl processed
