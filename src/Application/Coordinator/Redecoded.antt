-- ===== src/Application/Coordinator/Redecoded.antt =====
-- A window that is decoded a second time, after an event of it has become final.
use oratoria_engine.Prelude.{
  ℕ, String, true, false, Bool-cases, Option, none, some, List, ◌++◌, lookup, values, string_eq,
  ltb, length, ◌≡◌, inl, inr, refl, ap, sym, subst, ◌∙◌, arith,
}
use oratoria_engine.Prelude.Int.{ℤ, pos, leb_ℤ}
use oratoria_engine.Shared.Errors.{ok, Result-cases}
use oratoria_engine.Shared.Effects.{Action, from_result, ◌>>=◌, ◌>>◌}
use oratoria_engine.Shared.Measurement.{Floats, Confidence}
use oratoria_engine.Shared.Timeline.{MonotonicTime, monotonic_time}
use oratoria_engine.Shared.Provenance.{Provenance}
use oratoria_engine.Transcript.{
  Transcript, WordToken, with_provisional, finalize_through, finalized_frontier, final_tokens,
}
use oratoria_engine.Events.Speech.{SpeechEvent}
use oratoria_engine.Application.Assembly.Speech.{AssembledSpeech, silent_pauses}
use oratoria_engine.Evidence.Ledger
use oratoria_engine.Application.Coordinator.Frozen.{coordinator-KeepsFinal}
use oratoria_engine.Application.Coordinator.{
  Payload, Live, settle_due, is_due, add_pauses, pauses_at, derive_pauses, settle_window,
  finalize_to, finalize_window, publish_speech, publish_transcript, put_events, speech_provenance,
  absorb_speech,
}
use oratoria_engine.Application.Coordinator.Stays.{
  IsKeyed, Stays, add_pauses-Stays, finalized, publish_speech-Stays, publish_speech_lem,
  publish_transcript-Stays, put_events-IsKeyed, put_events-transcript, put_events_same, then-Stays,
}
use oratoria_engine.Application.Coordinator.Settling.{bind_ok, settle_due-hits}

module _ (fl : Floats) (digest : String → String) (run_id : String) (silence_threshold_ms : ℕ) where
  pauses_at-Stays :
      (id : String) (f : SpeechEvent fl.F) (o : Option Provenance)
      (ts : List (WordToken (Confidence fl.F)))
      → Stays id f (pauses_at fl digest run_id silence_threshold_ms o ts)
  pauses_at-Stays id f none ts = λ w h. h
  pauses_at-Stays id f (some p) ts =
      then-Stays id f (from_result (silent_pauses fl digest run_id ts silence_threshold_ms p))
        add_pauses (λ w h. h) (add_pauses-Stays id f)

  derive_pauses-Stays :
      (id : String) (f : SpeechEvent fl.F) (es : List (SpeechEvent fl.F))
      → Stays id f (derive_pauses fl digest run_id silence_threshold_ms es)
  unfolding derive_pauses
  derive_pauses-Stays id f es w = elim (Bool-cases (ltb (length (final_tokens w.transcript)) 2)) [
    | inl h ↦ rw h (λ k. k)
    | inr h ↦
        rw h (
          pauses_at-Stays id f (speech_provenance es w.speech_events) (final_tokens w.transcript) w)
  ]

  settle_window-hits :
      (e : SpeechEvent fl.F) (t : ℤ) (w w' : Live fl.F)
      → IsKeyed w.speech_events
      → lookup e.id w.speech_events ≡ some e
      → is_due t e ≡ true
      → settle_window fl digest run_id silence_threshold_ms t w ≡ (ok tt, w')
      → lookup e.id w'.speech_events ≡ some (finalized e)
  settle_window-hits e t w w' keyed g due q =
      let after : List (SpeechEvent fl.F) → Action (Live fl.F) (Unit {0}) = λ settled.
        derive_pauses fl digest run_id silence_threshold_ms settled >>= λ pauses.
        publish_transcript true >> publish_speech true (settled ++ pauses) in
      let (settled, w1, first, rest) =
        bind_ok after (settle_due t (values w.speech_events) w) tt w' q in
      let hit = settle_due-hits e.id e t w.speech_events keyed g due w w1 settled first in
      let stays : Stays e.id (finalized e) (after settled) =
        then-Stays e.id (finalized e) (derive_pauses fl digest run_id silence_threshold_ms settled)
          (λ pauses. publish_transcript true >> publish_speech true (settled ++ pauses))
          (derive_pauses-Stays e.id (finalized e) settled)
          (λ pauses.
            then-Stays e.id (finalized e) (publish_transcript true)
              (λ u. publish_speech true (settled ++ pauses))
              (publish_transcript-Stays e.id (finalized e) true)
              (λ u. publish_speech-Stays e.id (finalized e) true (settled ++ pauses))) in
      subst (λ u. lookup e.id u.speech_events ≡ some (finalized e)) (ap (λ u. u.1) rest)
        (stays w1 hit)

  through :
      (w : Live fl.F) (tr : Transcript (Confidence fl.F)) (boundary : MonotonicTime) (t : ℤ)
      → monotonic_time t ≡ ok boundary
      → finalize_through w.transcript boundary ≡ ok tr
      → finalize_to fl digest run_id silence_threshold_ms t w
        ≡ settle_window fl digest run_id silence_threshold_ms t (record w { transcript = tr })
  through w tr boundary t m n = rw (m, n) refl

  finalize_to-hits :
      (e : SpeechEvent fl.F) (t : ℤ) (w w' : Live fl.F)
      → IsKeyed w.speech_events
      → lookup e.id w.speech_events ≡ some e
      → is_due t e ≡ true
      → finalize_to fl digest run_id silence_threshold_ms t w ≡ (ok tt, w')
      → lookup e.id w'.speech_events ≡ some (finalized e)
  finalize_to-hits e t w w' keyed g due q = elim (Result-cases (monotonic_time t)) [
    | inr (x, m) ↦ ground (arith, m, q)
    | inl (boundary, m) ↦ elim (Result-cases (finalize_through w.transcript boundary)) [
      | inr (x, n) ↦ ground (arith, m, n, q)
      | inl (tr, n) ↦
          settle_window-hits e t (record w { transcript = tr }) w' keyed g due
            (sym (through w tr boundary t m n) ∙ q)
    ]
  ]

  -- The session once the answer's tokens, events and readings are in.
  abbrev taken_in : AssembledSpeech fl.F → Transcript (Confidence fl.F) → Live fl.F → Live fl.F
  taken_in a tr w =
      let put = put_events a.events (record w { transcript = tr }) in
      record put { prosody = put.prosody ++ a.prosody }

  absorb_step :
      (a : AssembledSpeech fl.F) (tr : Transcript (Confidence fl.F)) (w v : Live fl.F)
      → with_provisional w.transcript a.tokens ≡ ok tr
      → publish_speech false a.events (taken_in a tr w) ≡ (ok tt, v)
      → leb_ℤ a.stable_through_ms (pos (finalized_frontier v.transcript).ms) ≡ false
      → absorb_speech fl digest run_id silence_threshold_ms a w
        ≡ finalize_to fl digest run_id silence_threshold_ms a.stable_through_ms v
  unfolding absorb_speech finalize_window
  absorb_step a tr w v taken published before = rw (taken, published, before) refl

  -- A window is decoded again. The session's events are filed once each under their own identifiers;
  -- `e`, which is held under its identity once the answer's events are filed, is not final and
  -- ends within the stretch that the runtime now calls stable; the transcript takes the answer's tokens and
  -- its frontier is before the end of that stretch; and the ledger's entry `x` of that identity is
  -- final already. Where the processing does not raise, the session afterwards holds `e` as a final
  -- event, while the ledger still holds `x`, whatever the two say.
  pub redecoded_diverges :
      (w w' : Live fl.F) (a : AssembledSpeech fl.F) (e : SpeechEvent fl.F)
      → (x : Ledger.LedgerEntry Payload) → (tr : Transcript (Confidence fl.F))
      → IsKeyed w.speech_events
      → Ledger.current w.ledger e.id ≡ ok x
      → x.is_final ≡ true
      → with_provisional w.transcript a.tokens ≡ ok tr
      → leb_ℤ a.stable_through_ms (pos (finalized_frontier tr).ms) ≡ false
      → lookup e.id (put_events a.events w).speech_events ≡ some e
      → is_due a.stable_through_ms e ≡ true
      → absorb_speech fl digest run_id silence_threshold_ms a w ≡ (ok tt, w')
      → (lookup e.id w'.speech_events ≡ some (record e { is_final = true }))
        × (Ledger.current w'.ledger e.id ≡ ok x)
  redecoded_diverges w w' a e x tr keyed entry final taken before put due q =
      let safe =
        (coordinator-KeepsFinal fl digest run_id silence_threshold_ms w).0 a e.id x entry final in
      let (v, published, events, transcript) =
        publish_speech_lem false a.events (taken_in a tr w) in
      let same = events ∙ put_events_same a.events (record w { transcript = tr }) w refl in
      let early =
        subst (λ u. leb_ℤ a.stable_through_ms (pos (finalized_frontier u).ms) ≡ false)
          (sym (transcript ∙ put_events-transcript a.events (record w { transcript = tr })))
          before in
      let keyed_there : IsKeyed v.speech_events =
        subst IsKeyed (sym same) (put_events-IsKeyed a.events w keyed) in
      (
        finalize_to-hits e a.stable_through_ms v w' keyed_there (ap (lookup e.id) same ∙ put) due
            (sym (absorb_step a tr w v taken published early) ∙ q),
        subst (λ u. Ledger.current u.ledger e.id ≡ ok x) (ap (λ u. u.1) q) safe.0,
      )
