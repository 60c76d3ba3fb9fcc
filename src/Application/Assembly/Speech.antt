-- ===== src/Application/Assembly/Speech.antt =====
-- src/evidence_engine/application/services/speech_assembly.py, with the hypotheses of
-- application/ports/runtimes.py. `calibrate` is `Calibrator.calibrate` of the run's calibrator.
use Prim.Native.String.{◌++◌}
use oratoria_engine.Prelude.{
  ℕ, ◌+◌, String, Bool, false, not, Option, none, some, List, [], ◌∷◌, ◌++◌ as append_list, leb,
  if◌then◌else◌, sort,
}
use oratoria_engine.Prelude.Int.{ℤ, pos}
use oratoria_engine.Shared.Errors.{Result, ok, ◌>>=◌, each}
use oratoria_engine.Shared.Provenance.{Provenance, SemanticVersion, audio}
use oratoria_engine.Shared.Timeline.{Interval, interval_of, default_tolerance_ms}
use oratoria_engine.Shared.Measurement.{
  Floats, Confidence, calibrated, confidence, insufficient_observation,
}
use oratoria_engine.Shared.Taxonomy.{
  SpeechEventType, ContextualRole, ProsodicIndicator, speech_value, indicator_value, uncertain,
  silent_pause,
}
use oratoria_engine.Transcript.{WordToken, word_token, provisional}
use oratoria_engine.Events.Speech.{SpeechEvent, speech_event, is_lexical}
use oratoria_engine.Events.Prosody.{ProsodyReading, measured_reading, unavailable_reading}
use oratoria_engine.Application.Assembly.Identity.{derive_event_id, derive_token_id}

-- `ConfigurationSnapshot`, as far as the assembly reads it
pub record ConfigurationSnapshot (F : Type 0) : Type 0 where
  pub id : String
  pub taxonomy_version : SemanticVersion
  pub silence_threshold_ms : ℕ
  pub visual_thresholds : List (String × F)

pub record WordHypothesis (F : Type 0) : Type 0 where
  pub raw_text : String
  pub start_ms : ℤ
  pub end_ms : ℤ
  pub score : F

pub record SpeechEventHypothesis (F : Type 0) : Type 0 where
  pub type : SpeechEventType
  pub start_ms : ℤ
  pub end_ms : ℤ
  pub score : F
  pub raw_text : String
  pub context_role : Option ContextualRole

pub record ProsodyHypothesis (F : Type 0) : Type 0 where
  pub indicator : ProsodicIndicator
  pub start_ms : ℤ
  pub end_ms : ℤ
  pub value : Option F
  pub score : F

pub record SpeechResult (F : Type 0) : Type 0 where
  pub model_version : String
  pub words : List (WordHypothesis F)
  pub events : List (SpeechEventHypothesis F)
  pub prosody : List (ProsodyHypothesis F)
  pub stable_through_ms : ℤ

pub record AssembledSpeech (F : Type 0) : Type 0 where
  pub tokens : List (WordToken (Confidence F))
  pub events : List (SpeechEvent F)
  pub prosody : List (ProsodyReading F)
  pub stable_through_ms : ℤ

-- `hypothesis.context_role or ContextualRole.UNCERTAIN`
abbrev or_uncertain : Option ContextualRole → ContextualRole
or_uncertain none = uncertain
or_uncertain (some role) = role

unfoldable pub role_for : SpeechEventType → Option ContextualRole → Option ContextualRole
role_for type role = if not (is_lexical type) then none else some (or_uncertain role)

abbrev pub window_of : ℤ → ℤ → Result Interval
window_of start_ms end_ms = interval_of start_ms end_ms (pos default_tolerance_ms)

abbrev pub le_start : {C : Type 0} → WordToken C → WordToken C → Bool
le_start a b = leb a.interval.start.ms b.interval.start.ms

unfoldable pub speech_provenance :
    {F : Type 0} → String → ConfigurationSnapshot F → String → Provenance
speech_provenance run_id configuration model_version = record {
  modality = audio;
  model_version = model_version;
  taxonomy_version = configuration.taxonomy_version;
  configuration = configuration.id;
  evidence_ref = "audio:" ++ run_id;
}

module _ (fl : Floats) (digest : String → String) (run_id : String) where
  module _ (calibrate : String → fl.F → Result (Confidence fl.F)) where
    unfoldable pub token : WordHypothesis fl.F → Result (WordToken (Confidence fl.F))
    token word = do
      interval ← window_of word.start_ms word.end_ms
      confidence ← calibrate "word" word.score
      word_token (derive_token_id digest run_id word.start_ms word.raw_text) word.raw_text interval
          confidence provisional

    unfoldable pub event : Provenance → SpeechEventHypothesis fl.F → Result (SpeechEvent fl.F)
    unfolding role_for
    event provenance h = do
      interval ← window_of h.start_ms h.end_ms
      confidence ← calibrate (speech_value h.type) h.score
      speech_event (record {
        id = derive_event_id digest run_id (speech_value h.type) h.start_ms h.raw_text;
        type = h.type;
        interval = interval;
        confidence = confidence;
        provenance = provenance;
        raw_text = h.raw_text;
        context_role = role_for h.type h.context_role;
        is_final = false;
      })

    -- A reading with a value is measured, and one without says that it was not observed long enough.
    abbrev reading :
        ProsodicIndicator
        → Interval
        → fl.F
        → Provenance
        → Option fl.F
        → Result (ProsodyReading fl.F)
    reading indicator window score provenance none =
        unavailable_reading indicator window
          (record { reason = insufficient_observation; detail = "" }) provenance
    reading indicator window score provenance (some value) = do
      confidence ← calibrate (indicator_value indicator) score
      measured_reading indicator window value confidence provenance

    unfoldable pub prosody : Provenance → ProsodyHypothesis fl.F → Result (ProsodyReading fl.F)
    prosody provenance h = do
      window ← window_of h.start_ms h.end_ms
      reading h.indicator window h.score provenance h.value

    -- `SpeechAssembler.assemble`
    unfoldable pub assemble :
        ConfigurationSnapshot fl.F → SpeechResult fl.F → Result (AssembledSpeech fl.F)
    unfolding token event prosody speech_provenance
    assemble configuration result = do
      let provenance = speech_provenance run_id configuration result.model_version
      tokens ← each token result.words
      events ← each (event provenance) result.events
      readings ← each (prosody provenance) result.prosody
      ok (record {
        tokens = tokens;
        events = events;
        prosody = readings;
        stable_through_ms = result.stable_through_ms;
      })

  module _ {C : Type 0} where
    -- The pause that follows `previous`, if the gap is long enough.
    unfoldable pub pause_after :
        ℕ → Provenance → WordToken C → WordToken C → Result (List (SpeechEvent fl.F))
    pause_after threshold_ms provenance previous following =
        if leb (previous.interval.end.ms + threshold_ms) following.interval.start.ms
        then (do
          interval ← window_of (pos previous.interval.end.ms) (pos following.interval.start.ms)
          certain ← confidence fl fl.one calibrated
          pause ← speech_event (record {
            id =
                derive_event_id digest run_id (speech_value silent_pause)
                  (pos previous.interval.end.ms) "";
            type = silent_pause;
            interval = interval;
            confidence = certain;
            provenance = provenance;
            raw_text = "";
            context_role = none;
            is_final = false;
          })
          ok (pause ∷ []))
        else ok []

    -- The loop over `pairwise(ordered)`.
    unfoldable pub pauses_between :
        ℕ → Provenance → List (WordToken C) → Result (List (SpeechEvent fl.F))
    unfolding pause_after
    pauses_between threshold_ms provenance [] = ok []
    pauses_between threshold_ms provenance (t ∷ []) = ok []
    pauses_between threshold_ms provenance (t ∷ u ∷ rest) = do
      here ← pause_after threshold_ms provenance t u
      later ← pauses_between threshold_ms provenance (u ∷ rest)
      ok (append_list here later)

    unfoldable pub silent_pauses :
        List (WordToken C) → ℕ → Provenance → Result (List (SpeechEvent fl.F))
    unfolding pauses_between
    silent_pauses tokens threshold_ms provenance =
        pauses_between threshold_ms provenance (sort le_start tokens)
