-- ===== src/Application/Coordinator.antt =====
-- src/evidence_engine/application/workflows/streaming.py, from the runtime's answer on: what the
-- coordinator does with an assembled window, with a failure of a runtime, and what it publishes. Code
-- that raises keeps what it wrote before. Telemetry is left out.
pub mod Keeping
pub mod Frozen
pub mod Degraded
pub mod Stays
pub mod Settling
pub mod Redecoded
mod Tests
use oratoria_engine.Prelude.{
  ℕ, ◌+◌, String, Bool, true, false, not, ◌&&◌, ◌||◌, Option, none, some, List, [], ◌∷◌, ◌++◌, Dict,
  lookup, insert, values, leb, ltb, eqb, max, if◌then◌else◌, contains, add, length, keep, string_eq,
  get_last?,
}
use oratoria_engine.Prelude.Int.{ℤ, pos, pos_part, leb_ℤ}
use oratoria_engine.Shared.Errors.{Error, Result, ok, raised}
use oratoria_engine.Shared.Effects.{Action, pure, raises, from_result, reads, writes, ◌>>=◌, ◌>>◌}
use oratoria_engine.Shared.Provenance.{Modality, Provenance, modality_eq}
use oratoria_engine.Shared.Timeline.{MonotonicTime, monotonic_time}
use oratoria_engine.Shared.Measurement.{Floats, Confidence}
use oratoria_engine.Shared.Taxonomy.{speech_value}
use oratoria_engine.Transcript.{
  Transcript, WordToken, with_provisional, finalize_through, finalized_frontier, final_tokens,
  provisional_tokens,
}
use oratoria_engine.Events.Speech.{SpeechEvent, finalize}
use oratoria_engine.Events.Visual.{VisualEvent}
use oratoria_engine.Events.Prosody.{ProsodyReading}
use oratoria_engine.Quality.{QualityReport, QualityAssessment, ModalityAvailability, extended}
use oratoria_engine.Evidence.Ledger
use oratoria_engine.Application.Assembly.Speech.{AssembledSpeech, silent_pauses}
use oratoria_engine.Application.Assembly.Visual.{AssembledVisual}

-- The payload of a ledger entry: the type's text and the raw text.
pub record Payload : Type 0 where
  pub type : String
  pub raw_text : String

-- `OutboundEvent`, with the objects that the source renders into its payload.
pub data Outbound (F : Type 0) : Type 0 where
  transcript_message : Bool → ℕ → List (WordToken (Confidence F)) → Outbound F
  speech_message : Bool → ℕ → List (SpeechEvent F) → Outbound F
  degraded_message : Modality → ℕ → Outbound F
  quality_warning : ℕ → List ModalityAvailability → Outbound F

-- `StreamingState`, as far as the processing of an answer reaches it, the ledger of the run, and what
-- the channel was asked to publish.
pub record Live (F : Type 0) : Type 0 where
  pub transcript : Transcript (Confidence F)
  pub speech_events : Dict String (SpeechEvent F)
  pub visual_events : Dict String (VisualEvent F)
  pub prosody : List (ProsodyReading F)
  pub quality : QualityReport F
  pub degraded_modalities : List Modality
  pub ledger : Ledger.EvidenceLedger Payload
  pub published : List (Outbound F)

abbrev pub known : Option (List (Ledger.LedgerEntry Payload)) → Bool
known none = false
known (some v) = true

module _ {F : Type 0} where
  abbrev pub publish : Outbound F → Action (Live F) (Unit {0})
  publish message = writes (λ w. record w { published = w.published ++ message ∷ [] })

  -- `max(e.interval.end.ms for e in events)`
  abbrev pub latest_end : List (SpeechEvent F) → ℕ
  latest_end [] = 0
  latest_end (e ∷ es) = max e.interval.end.ms (latest_end es)

  unfoldable pub publish_speech : Bool → List (SpeechEvent F) → Action (Live F) (Unit {0})
  publish_speech is_final [] = pure tt
  publish_speech is_final (e ∷ es) =
      publish (speech_message is_final (latest_end (e ∷ es)) (e ∷ es))

  -- The last token of those that are published, if there is one.
  abbrev pub publish_tokens :
      Bool
      → List (WordToken (Confidence F))
      → Option (WordToken (Confidence F))
      → Action (Live F) (Unit {0})
  publish_tokens is_final tokens none = pure tt
  publish_tokens is_final tokens (some t) =
      publish (transcript_message is_final t.interval.end.ms tokens)

  unfoldable pub publish_transcript : Bool → Action (Live F) (Unit {0})
  publish_transcript is_final = do
    tokens ←
        reads (λ w. if is_final then final_tokens w.transcript else provisional_tokens w.transcript)
    publish_tokens is_final tokens (get_last? tokens)

  abbrev pub publish_unusable : List ModalityAvailability → Action (Live F) (Unit {0})
  publish_unusable [] = pure tt
  publish_unusable (r ∷ rs) = do
    frontier ← reads (λ w. finalized_frontier w.transcript)
    publish (quality_warning frontier.ms (r ∷ rs))

  unfoldable pub publish_quality_warnings : List ModalityAvailability → Action (Live F) (Unit {0})
  publish_quality_warnings availability =
      publish_unusable (keep (λ r. not r.is_usable) availability)

  -- `self._state.speech_events[event.id.value] = event`
  abbrev pub put_event : SpeechEvent F → Live F → Live F
  put_event e w = record w { speech_events = insert e.id e w.speech_events }

  abbrev pub put_events : List (SpeechEvent F) → Live F → Live F
  put_events [] w = w
  put_events (e ∷ es) w = put_events es (put_event e w)

  abbrev pub with_entry :
      Result (Ledger.LedgerEntry Payload × Ledger.EvidenceLedger Payload)
      → Action (Live F) (Unit {0})
  with_entry (raised e) = raises e
  with_entry (ok (entry, l)) = writes (λ w. record w { ledger = l })

  -- `_record`: an event that the ledger has is finalized there, another one is appended as final.
  unfoldable pub record_event : SpeechEvent F → Action (Live F) (Unit {0})
  record_event e = do
    l ← reads (λ w. w.ledger)
    with_entry (
        if known (lookup e.id l.history)
        then Ledger.finalize l e.id
        else Ledger.append l e.id e.interval e.provenance true
            (record { type = speech_value e.type; raw_text = e.raw_text }))

  -- The body of the loop of `_finalize_through` at an event that is due.
  unfoldable pub settle : SpeechEvent F → Action (Live F) (SpeechEvent F)
  unfolding record_event
  settle e = do
    finalized ← from_result (finalize e)
    writes (put_event finalized)
    record_event finalized
    pure finalized

  abbrev pub is_due : ℤ → SpeechEvent F → Bool
  is_due stable_through_ms e = not e.is_final && leb_ℤ (pos e.interval.end.ms) stable_through_ms

  -- The loop, over the list of the events as they were when it began.
  unfoldable pub settle_due : ℤ → List (SpeechEvent F) → Action (Live F) (List (SpeechEvent F))
  unfolding settle
  settle_due stable_through_ms [] = pure []
  settle_due stable_through_ms (e ∷ es) =
      let rest = settle_due stable_through_ms es in
      if is_due stable_through_ms e
      then (do finalized ← settle e; later ← rest; pure (finalized ∷ later))
      else rest

  -- `_speech_provenance`: of the first new event, or else of the first event of the session.
  abbrev pub first_provenance : List (SpeechEvent F) → Option Provenance
  first_provenance [] = none
  first_provenance (e ∷ es) = some e.provenance

  unfoldable pub speech_provenance :
      List (SpeechEvent F) → Dict String (SpeechEvent F) → Option Provenance
  speech_provenance [] held = first_provenance (values held)
  speech_provenance (e ∷ es) held = some e.provenance

  abbrev pub has_event : Option (SpeechEvent F) → Bool
  has_event none = false
  has_event (some e) = true

  -- The loop of `_derive_pauses`.
  unfoldable pub add_pauses : List (SpeechEvent F) → Action (Live F) (List (SpeechEvent F))
  unfolding settle
  add_pauses [] = pure []
  add_pauses (pause ∷ rest) = do
    here ← reads (λ w. has_event (lookup pause.id w.speech_events))
    let later = add_pauses rest
    if here then later else (do p ← settle pause; ps ← later; pure (p ∷ ps))

  unfoldable pub degrade : Modality → Action (Live F) (Unit {0})
  degrade modality = do
    first_time ← reads (λ w. not (contains modality w.degraded_modalities))
    writes (λ w. record w { degraded_modalities = add modality w.degraded_modalities })
    frontier ← reads (λ w. finalized_frontier w.transcript)
    if first_time then publish (degraded_message modality frontier.ms) else pure tt

module _ (fl : Floats) (digest : String → String) (run_id : String) (silence_threshold_ms : ℕ) where
  abbrev pub pauses_at :
      Option Provenance
      → List (WordToken (Confidence fl.F))
      → Action (Live fl.F) (List (SpeechEvent fl.F))
  pauses_at none tokens = pure []
  pauses_at (some provenance) tokens = do
    pauses ← from_result (silent_pauses fl digest run_id tokens silence_threshold_ms provenance)
    add_pauses pauses

  -- `_derive_pauses`
  unfoldable pub derive_pauses :
      List (SpeechEvent fl.F) → Action (Live fl.F) (List (SpeechEvent fl.F))
  unfolding add_pauses
  derive_pauses newly_final = do
    tokens ← reads (λ w. final_tokens w.transcript)
    held ← reads (λ w. w.speech_events)
    if ltb (length tokens) 2 then pure [] else pauses_at (speech_provenance newly_final held) tokens

  -- `_finalize_through`, once the transcript is promoted
  abbrev pub settle_window : ℤ → Action (Live fl.F) (Unit {0})
  settle_window stable_through_ms = do
    events ← reads (λ w. values w.speech_events)
    settled ← settle_due stable_through_ms events
    pauses ← derive_pauses settled
    publish_transcript true
    publish_speech true (settled ++ pauses)

  -- `_finalize_through`, past the early return
  abbrev pub finalize_to : ℤ → Action (Live fl.F) (Unit {0})
  finalize_to stable_through_ms = do
    boundary ← from_result (monotonic_time stable_through_ms)
    before ← reads (λ w. w.transcript)
    transcript ← from_result (finalize_through before boundary)
    writes (λ w. record w { transcript = transcript })
    settle_window stable_through_ms

  unfoldable pub finalize_window : ℤ → Action (Live fl.F) (Unit {0})
  unfolding derive_pauses publish_transcript publish_speech settle_due
  finalize_window stable_through_ms = do
    frontier ← reads (λ w. finalized_frontier w.transcript)
    if leb_ℤ stable_through_ms (pos frontier.ms) then pure tt else finalize_to stable_through_ms

  -- `ingest_audio`, from the assembled answer on
  unfoldable pub absorb_speech : AssembledSpeech fl.F → Action (Live fl.F) (Unit {0})
  unfolding finalize_window publish_speech
  absorb_speech assembled = do
    before ← reads (λ w. w.transcript)
    transcript ← from_result (with_provisional before assembled.tokens)
    writes (λ w. record w { transcript = transcript })
    writes (put_events assembled.events)
    writes (λ w. record w { prosody = w.prosody ++ assembled.prosody })
    publish_speech false assembled.events
    finalize_window assembled.stable_through_ms

abbrev pub put_visuals : {F : Type 0} → List (VisualEvent F) → Live F → Live F
put_visuals [] w = w
put_visuals (e ∷ es) w = put_visuals es (record w { visual_events = insert e.id e w.visual_events })

-- `ingest_video`, from the assembled answer on
unfoldable pub absorb_visual : {F : Type 0} → AssembledVisual F → Action (Live F) (Unit {0})
unfolding publish_quality_warnings
absorb_visual assembled = do
  writes (put_visuals assembled.events)
  writes
      (λ w. record w { quality = extended w.quality assembled.assessments assembled.availability })
  publish_quality_warnings assembled.availability
