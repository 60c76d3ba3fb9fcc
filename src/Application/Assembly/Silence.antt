-- ===== src/Application/Assembly/Silence.antt =====
-- The silent pauses that `silent_pauses` derives are the silences of the words.
use mathlib.Core.List.{map-append}
use oratoria_engine.Prelude.{
  ℕ, ◌+◌, ◌≤◌, ◌<◌, String, true, false, Bool-cases, none, List, [], ◌∷◌, ◌++◌, map, leb, All, In,
  IsSorted, IsOrder, sort_sorted, ◌≡◌, ◌↔◌, inl, inr, refl, ap, sym, subst, ◌∙◌, arith,
}
use oratoria_engine.Prelude.Int.{pos}
use oratoria_engine.Shared.Errors.{ok}
use oratoria_engine.Shared.Provenance.{Provenance, audio}
use oratoria_engine.Shared.Timeline.{interval_of, interval, monotonic_time, default_tolerance_ms}
use oratoria_engine.Shared.Measurement.{Floats, calibrated, confidence}
use oratoria_engine.Shared.Taxonomy.{silent_pause, speech_value}
use oratoria_engine.Transcript.{WordToken}
use oratoria_engine.Events.Speech.{SpeechEvent, speech_event, is_lexical}
use oratoria_engine.Events.Guards.{speech_event_iff}
use oratoria_engine.Application.Assembly.Gaps.{
  InTurn, IsSilence, gap_at, gaps, gaps_sound, gaps_complete,
}
use oratoria_engine.Application.Assembly.Identity.{derive_event_id}
use oratoria_engine.Application.Assembly.Speech.{
  pause_after, pauses_between, silent_pauses, le_start, window_of,
}

le_start-IsOrder : {C : Type 0} → IsOrder {A = WordToken C} le_start
le_start-IsOrder = record { total = λ x y. ground arith; trans = λ x y z h k. ground arith }

starts_sorted :
    {C : Type 0} (t : WordToken C) (ts : List (WordToken C))
    → t.interval.start.ms ≤ t.interval.end.ms
    → All (λ u. t.interval.end.ms ≤ u.interval.start.ms) ts
    → All (λ u. le_start t u ≡ true) ts
starts_sorted t [] h k = tt
starts_sorted t (u ∷ us) h (k, ks) = (ground arith, starts_sorted t us h ks)

InTurn-IsSorted : {C : Type 0} (ts : List (WordToken C)) → InTurn ts → IsSorted le_start ts
InTurn-IsSorted [] r = tt
InTurn-IsSorted (t ∷ ts) (h, k, r) = (starts_sorted t ts h k, InTurn-IsSorted ts r)

window_of-ok :
    (a b : ℕ)
    → a ≤ b
    → window_of (pos a) (pos b)
      ≡ ok (record {
        start = record { ms = a };
        end = record { ms = b };
        tolerance_ms = default_tolerance_ms;
      })
unfolding interval_of interval monotonic_time
window_of-ok a b h = ground arith

module _ (fl : Floats) where
  abbrev pub span : SpeechEvent fl.F → ℕ × ℕ
  span e = (e.interval.start.ms, e.interval.end.ms)

  certain-ok :
      fl.le fl.zero fl.one ≡ true
      → fl.le fl.one fl.one ≡ true
      → confidence fl fl.one calibrated ≡ ok (record { value = fl.one; state = calibrated })
  unfolding confidence
  certain-ok h k = rw (h, k) refl

  module _ (digest : String → String) (run_id : String) {C : Type 0} where
    -- The event between two words.
    abbrev pause : Provenance → WordToken C → WordToken C → SpeechEvent fl.F
    pause p t u = record {
      id = derive_event_id digest run_id (speech_value silent_pause) (pos t.interval.end.ms) "";
      type = silent_pause;
      interval = record {
        start = record { ms = t.interval.end.ms };
        end = record { ms = u.interval.start.ms };
        tolerance_ms = default_tolerance_ms;
      };
      confidence = record { value = fl.one; state = calibrated };
      provenance = p;
      raw_text = "";
      context_role = none;
      is_final = false;
    }

    pause-ok :
        (p : Provenance) (t u : WordToken C)
        → p.modality ≡ audio
        → speech_event (pause p t u) ≡ ok (pause p t u)
    unfolding is_lexical
    pause-ok p t u m =
        (speech_event_iff (pause p t u) (pause p t u)).1 (refl, (m, inr (refl, refl)))

    pause_after-gap :
        (th : ℕ) (p : Provenance) (t u : WordToken C)
        → p.modality ≡ audio
        → fl.le fl.zero fl.one ≡ true
        → fl.le fl.one fl.one ≡ true
        → (ps : List (SpeechEvent fl.F)) × (pause_after fl digest run_id th p t u ≡ ok ps)
          × (map span ps ≡ gap_at th t u)
    unfolding pause_after
    pause_after-gap th p t u m h k =
        elim (Bool-cases (leb (t.interval.end.ms + th) u.interval.start.ms)) [
          | inl e ↦
              let w = window_of-ok t.interval.end.ms u.interval.start.ms (ground arith) in
              (pause p t u ∷ [], rw (e, w, certain-ok h k, pause-ok p t u m) refl, rw e refl)
          | inr e ↦ ([], rw e refl, rw e refl)
        ]

    pauses_between-gaps :
        (th : ℕ) (p : Provenance) (ts : List (WordToken C))
        → p.modality ≡ audio
        → fl.le fl.zero fl.one ≡ true
        → fl.le fl.one fl.one ≡ true
        → (ps : List (SpeechEvent fl.F)) × (pauses_between fl digest run_id th p ts ≡ ok ps)
          × (map span ps ≡ gaps th ts)
    unfolding pauses_between gaps
    pauses_between-gaps th p [] m h k = ([], refl, refl)
    pauses_between-gaps th p (t ∷ []) m h k = ([], refl, refl)
    pauses_between-gaps th p (t ∷ u ∷ rest) m h k =
        let (here, a, b) = pause_after-gap th p t u m h k in
        let (later, c, d) = pauses_between-gaps th p (u ∷ rest) m h k in
        (here ++ later, rw (a, c) refl, map-append span here later ∙ rw (b, d) refl)

    -- Where the words follow one another, the threshold is positive, the provenance is audio and 1.0 lies in
    -- [0, 1]: `silent_pauses` raises nothing, and the stretches of the events it returns are exactly the silences: those
    -- from the end of a word to the start of a word, at least as long as the threshold, that no word reaches into.
    pub silent_pauses_exact :
        (th : ℕ) (p : Provenance) (ts : List (WordToken C))
        → 0 < th
        → p.modality ≡ audio
        → fl.le fl.zero fl.one ≡ true
        → fl.le fl.one fl.one ≡ true
        → InTurn ts
        → (ps : List (SpeechEvent fl.F)) × (silent_pauses fl digest run_id ts th p ≡ ok ps)
          × ((s : ℕ × ℕ) → In s (map span ps) ↔ IsSilence th ts s)
    unfolding silent_pauses
    silent_pauses_exact th p ts positive m h k turn =
        let (ps, a, b) = pauses_between-gaps th p ts m h k in
        let kept =
          ap (pauses_between fl digest run_id th p)
            (sort_sorted le_start-IsOrder ts (InTurn-IsSorted ts turn)) in
        (
          ps,
          kept ∙ a,
          λ s. (
            λ i. gaps_sound th positive ts s turn (subst (λ l. In s l) b i),
            λ q. subst (λ l. In s l) (sym b) (gaps_complete th positive ts s turn q),
          ),
        )
