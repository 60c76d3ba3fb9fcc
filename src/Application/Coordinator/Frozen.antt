-- ===== src/Application/Coordinator/Frozen.antt =====
-- The ledger's final entries under everything that the coordinator does.
use oratoria_engine.Prelude.{
  ℕ, String, true, false, Bool-cases, Option, none, some, List, [], ◌∷◌, ◌++◌, ltb, lookup, values,
  not, keep, contains, length, string_eq, inl, inr,
}
use oratoria_engine.Prelude.Int.{ℤ, pos, leb_ℤ}
use oratoria_engine.Shared.Errors.{Result-cases}
use oratoria_engine.Shared.Effects.{pure, writes, from_result, ◌>>=◌, ◌>>◌}
use oratoria_engine.Shared.Provenance.{Modality, Provenance, modality_eq}
use oratoria_engine.Shared.Measurement.{Floats, Confidence}
use oratoria_engine.Transcript.{
  WordToken, final_tokens, finalized_frontier, finalize_through, with_provisional,
}
use oratoria_engine.Events.Speech.{SpeechEvent, finalize}
use oratoria_engine.Quality.{extended}
use oratoria_engine.Application.Assembly.Speech.{AssembledSpeech, silent_pauses}
use oratoria_engine.Application.Assembly.Visual.{AssembledVisual}
use oratoria_engine.Application.Coordinator.Keeping.{
  KeepsFinal, Safe, Keeps-refl, then-Safe, put_events-ledger, put_visuals-ledger,
  publish_speech-Safe, publish_transcript-Safe, publish_unusable-Safe, record_event-Safe,
  after_change,
}
use oratoria_engine.Application.Coordinator.{
  settle_window, Live, publish_speech, publish_transcript, publish_unusable,
  publish_quality_warnings, put_event, put_events, put_visuals, record_event, settle, settle_due,
  is_due, add_pauses, has_event, pauses_at, derive_pauses, finalize_to, finalize_window,
  speech_provenance, absorb_speech, absorb_visual, degrade,
}
use oratoria_engine.Shared.Timeline.{monotonic_time}

module _ {F : Type 0} where
  settle-Safe : (e : SpeechEvent F) → Safe (settle e)
  unfolding settle
  settle-Safe e =
      then-Safe (from_result (finalize e)) (λ f. writes (put_event f) >> (record_event f >> pure f))
        (λ w. Keeps-refl w)
        (λ f w.
          then-Safe (record_event f) (λ u. pure f) (record_event-Safe f) (λ u v. Keeps-refl v)
            (put_event f w))

  settle_due-Safe : (t : ℤ) (es : List (SpeechEvent F)) → Safe (settle_due t es)
  unfolding settle_due
  settle_due-Safe t [] w = Keeps-refl w
  settle_due-Safe t (e ∷ es) w =
      let rest = settle_due-Safe t es in
      elim (Bool-cases (is_due t e)) [
        | inl h ↦ rw h (
            then-Safe (settle e) (λ f. settle_due t es >>= λ later. pure (f ∷ later))
              (settle-Safe e)
              (λ f.
                then-Safe (settle_due t es) (λ later. pure (f ∷ later)) rest (λ l v. Keeps-refl v))
              w)
        | inr h ↦ rw h (rest w)
      ]

  add_pauses-Safe : (es : List (SpeechEvent F)) → Safe (add_pauses es)
  unfolding add_pauses
  add_pauses-Safe [] w = Keeps-refl w
  add_pauses-Safe (e ∷ es) w =
      let rest = add_pauses-Safe es in
      elim (Bool-cases (has_event (lookup e.id w.speech_events))) [
        | inl h ↦ rw h (rest w)
        | inr h ↦ rw h (
            then-Safe (settle e) (λ f. add_pauses es >>= λ later. pure (f ∷ later)) (settle-Safe e)
              (λ f.
                then-Safe (add_pauses es) (λ later. pure (f ∷ later)) rest (λ l v. Keeps-refl v))
              w)
      ]

  absorb_visual-Safe : (v : AssembledVisual F) → Safe (absorb_visual v)
  unfolding absorb_visual publish_quality_warnings
  absorb_visual-Safe v w =
      let put = put_visuals v.events w in
      after_change w (record put { quality = extended put.quality v.assessments v.availability })
        (publish_unusable (keep (λ r. not r.is_usable) v.availability))
        (put_visuals-ledger v.events w)
        (publish_unusable-Safe (keep (λ r. not r.is_usable) v.availability))

  degrade-Safe : (m : Modality) → Safe (degrade {F = F} m)
  unfolding degrade
  degrade-Safe m w = elim (Bool-cases (not (contains m w.degraded_modalities))) [
    | inl h ↦ rw h (Keeps-refl w)
    | inr h ↦ rw h (Keeps-refl w)
  ]

module _ (fl : Floats) (digest : String → String) (run_id : String) (silence_threshold_ms : ℕ) where
  pauses_at-Safe :
      (o : Option Provenance) (ts : List (WordToken (Confidence fl.F)))
      → Safe (pauses_at fl digest run_id silence_threshold_ms o ts)
  pauses_at-Safe none ts = λ w. Keeps-refl w
  pauses_at-Safe (some p) ts =
      then-Safe (from_result (silent_pauses fl digest run_id ts silence_threshold_ms p)) add_pauses
        (λ w. Keeps-refl w) add_pauses-Safe

  derive_pauses-Safe :
      (es : List (SpeechEvent fl.F)) → Safe (derive_pauses fl digest run_id silence_threshold_ms es)
  unfolding derive_pauses
  derive_pauses-Safe es w = elim (Bool-cases (ltb (length (final_tokens w.transcript)) 2)) [
    | inl h ↦ rw h (Keeps-refl w)
    | inr h ↦
        rw h (pauses_at-Safe (speech_provenance es w.speech_events) (final_tokens w.transcript) w)
  ]

  settle_window-Safe : (t : ℤ) → Safe (settle_window fl digest run_id silence_threshold_ms t)
  settle_window-Safe t w =
      then-Safe (settle_due t (values w.speech_events))
        (λ settled. derive_pauses fl digest run_id silence_threshold_ms settled >>= λ pauses.
          publish_transcript true >> publish_speech true (settled ++ pauses))
        (settle_due-Safe t (values w.speech_events))
        (λ settled.
          then-Safe (derive_pauses fl digest run_id silence_threshold_ms settled)
            (λ pauses. publish_transcript true >> publish_speech true (settled ++ pauses))
            (derive_pauses-Safe settled)
            (λ pauses.
              then-Safe (publish_transcript true) (λ u. publish_speech true (settled ++ pauses))
                (publish_transcript-Safe true) (λ u. publish_speech-Safe true (settled ++ pauses))))
        w

  finalize_to-Safe : (t : ℤ) → Safe (finalize_to fl digest run_id silence_threshold_ms t)
  finalize_to-Safe t w = elim (Result-cases (monotonic_time t)) [
    | inr (e, x) ↦ rw x (Keeps-refl w)
    | inl (b, x) ↦ rw x (elim (Result-cases (finalize_through w.transcript b)) [
      | inr (e, y) ↦ rw y (Keeps-refl w)
      | inl (tr, y) ↦ rw y (settle_window-Safe t (record w { transcript = tr }))
    ])
  ]

  finalize_window-Safe : (t : ℤ) → Safe (finalize_window fl digest run_id silence_threshold_ms t)
  unfolding finalize_window
  finalize_window-Safe t w =
      elim (Bool-cases (leb_ℤ t (pos (finalized_frontier w.transcript).ms))) [
        | inl h ↦ rw h (Keeps-refl w)
        | inr h ↦ rw h (finalize_to-Safe t w)
      ]

  absorb_speech-Safe :
      (a : AssembledSpeech fl.F) → Safe (absorb_speech fl digest run_id silence_threshold_ms a)
  unfolding absorb_speech
  absorb_speech-Safe a w = elim (Result-cases (with_provisional w.transcript a.tokens)) [
    | inr (e, x) ↦ rw x (Keeps-refl w)
    | inl (tr, x) ↦
        let put = put_events a.events (record w { transcript = tr }) in
        rw x (
          after_change w (record put { prosody = put.prosody ++ a.prosody })
            (publish_speech false a.events
              >> finalize_window fl digest run_id silence_threshold_ms a.stable_through_ms)
            (put_events-ledger a.events (record w { transcript = tr }))
            (then-Safe (publish_speech false a.events)
              (λ u. finalize_window fl digest run_id silence_threshold_ms a.stable_through_ms)
              (publish_speech-Safe false a.events) (λ u. finalize_window-Safe a.stable_through_ms)))
  ]

  -- Whatever an answer of the speech runtime or of the vision runtime holds, a failure of a modality is
  -- followed by, and whether the processing raises or not: an entry of the ledger that is final before
  -- is afterwards the current one of its event, unchanged, with the same history.
  pub coordinator-KeepsFinal :
      (w : Live fl.F)
      → ((a : AssembledSpeech fl.F)
          → KeepsFinal w.ledger (absorb_speech fl digest run_id silence_threshold_ms a w).1.ledger)
        × ((v : AssembledVisual fl.F) → KeepsFinal w.ledger (absorb_visual v w).1.ledger)
        × ((m : Modality) → KeepsFinal w.ledger (degrade m w).1.ledger)
  coordinator-KeepsFinal w =
      (λ a. absorb_speech-Safe a w, λ v. absorb_visual-Safe v w, λ m. degrade-Safe m w)
