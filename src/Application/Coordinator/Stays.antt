-- ===== src/Application/Coordinator/Stays.antt =====
-- The events that a session holds, under what the coordinator files and publishes.
use oratoria_engine.Prelude.{
  String, Bool, true, false, Bool-cases, Option, none, some, List, [], ◌∷◌, Dict, All, ◌⊎◌, lookup,
  insert, values, lookup-insert, string_eq, ◌==◌, ◌≡◌, inl, inr, refl, ap, subst, ◌∙◌, arith,
}
use oratoria_engine.Prelude.Int.{ℤ}
use oratoria_engine.Shared.Errors.{Result, ok, raised, Result-cases}
use oratoria_engine.Shared.Effects.{Action, continue_with, pure, ◌>>=◌}
use oratoria_engine.Shared.Respect
use oratoria_engine.Shared.Measurement.{Confidence}
use oratoria_engine.Transcript.{WordToken}
use oratoria_engine.Events.Speech.{SpeechEvent, finalize, speech_event}
use oratoria_engine.Application.Coordinator.{
  Live, record_event, settle, settle_due, is_due, add_pauses, has_event, put_event, publish_speech,
  publish_transcript, publish_tokens, put_events,
}

-- Each event of a session is filed once, under its own identifier.
abbrev pub IsKeyed : {F : Type 0} → Dict String (SpeechEvent F) → Type 0
IsKeyed [] = Unit
IsKeyed ((k, e) ∷ d) = (k ≡ e.id) × (lookup k d ≡ none) × IsKeyed d

module _ {F : Type 0} where
  abbrev pub finalized : SpeechEvent F → SpeechEvent F
  finalized e = record e { is_final = true }

  pub finalize_lem : (e f : SpeechEvent F) → finalize e ≡ ok f → f ≡ finalized e
  unfolding finalize speech_event
  finalize_lem e f h = ground (arith, h)

  insert-IsKeyed :
      (e : SpeechEvent F) (d : Dict String (SpeechEvent F)) → IsKeyed d → IsKeyed (insert e.id e d)
  unfolding insert lookup
  insert-IsKeyed e [] h = (refl, refl, tt)
  insert-IsKeyed e ((k, x) ∷ d) h = elim (Bool-cases (k == e.id)) [
    | inl q ↦ rw q (ground (arith, q, string_eq.beq_iff k e.id), h.1, h.2)
    | inr q ↦
        let differ : (e.id == k) ≡ false =
          ground (arith, q, string_eq.beq_iff k e.id, string_eq.beq_iff e.id k) in
        rw q (h.0, lookup-insert e.id k e d ∙ rw differ h.1, insert-IsKeyed e d h.2)
  ]

  pub none_under :
      (id : String) (d : Dict String (SpeechEvent F))
      → IsKeyed d
      → lookup id d ≡ none
      → All (λ x. (x.id == id) ≡ false) (values d)
  unfolding lookup
  none_under id [] h n = tt
  none_under id ((k, x) ∷ d) h n =
      (ground (arith, h.0, n, string_eq.beq_iff k id), none_under id d h.2 (ground (arith, n)))

  -- An event that is held stays held, whatever a step does.
  abbrev Holds : String → SpeechEvent F → Live F → Live F → Type 0
  Holds id f w w' = lookup id w.speech_events ≡ some f → lookup id w'.speech_events ≡ some f

  abbrev pub Stays : String → SpeechEvent F → {A : Type 0} → Action (Live F) A → Type 0
  Stays id f m = Respect.Respects (Holds id f) m

  pub then-Stays :
      (id : String) (f : SpeechEvent F) {A B : Type 0} (m : Action (Live F) A)
      (g : A → Action (Live F) B)
      → Stays id f m
      → ((a : A) → Stays id f (g a))
      → Stays id f (m >>= g)
  then-Stays id f = Respect.Respects-bind (Holds id f) (λ w h. h) (λ u v w p q h. q (p h))

  pub record_event-events :
      (e : SpeechEvent F) (w : Live F) → (record_event e w).1.speech_events ≡ w.speech_events
  unfolding record_event
  record_event-events e w = ground arith

  then_pure :
      {A B : Type 0} (b : B) (p : Result A × Live F) → (continue_with (λ a. pure b) p).1 ≡ p.1
  then_pure b (ok a, w) = refl
  then_pure b (raised e, w) = refl

  -- What settling an event leaves: the events as they were where it raises before it files the event,
  -- and otherwise the final event under its identifier.
  settle-events :
      (e : SpeechEvent F) (w : Live F)
      → ((settle e w).1.speech_events ≡ w.speech_events)
        ⊎ ((settle e w).1.speech_events ≡ insert e.id (finalized e) w.speech_events)
  unfolding settle
  settle-events e w = elim (Result-cases (finalize e)) [
    | inr (x, h) ↦ inl (rw h refl)
    | inl (f, h) ↦ inr (
        rw h (
          ap (λ u. u.speech_events) (then_pure f (record_event f (put_event f w)))
          ∙ record_event-events f (put_event f w)
          ∙ ap (λ g. insert g.id g w.speech_events) (finalize_lem e f h)))
  ]

  -- Settling an event of another identifier, or one that nothing is held under.
  settle_other : (id : String) (f e : SpeechEvent F) → (e.id == id) ≡ false → Stays id f (settle e)
  settle_other id f e n w h = elim (settle-events e w) [
    | inl q ↦ ap (lookup id) q ∙ h
    | inr q ↦ ap (lookup id) q ∙ lookup-insert e.id id (finalized e) w.speech_events ∙ rw n h
  ]

  pub settle_due-others :
      (id : String) (f : SpeechEvent F) (t : ℤ) (es : List (SpeechEvent F))
      → All (λ x. (x.id == id) ≡ false) es
      → Stays id f (settle_due t es)
  unfolding settle_due
  settle_due-others id f t [] n w = λ h. h
  settle_due-others id f t (e ∷ es) n w =
      let rest = settle_due-others id f t es n.1 in
      elim (Bool-cases (is_due t e)) [
        | inl q ↦ rw q (
            then-Stays id f (settle e) (λ x. settle_due t es >>= λ later. pure (x ∷ later))
              (settle_other id f e n.0)
              (λ x. then-Stays id f (settle_due t es) (λ later. pure (x ∷ later)) rest (λ l v h. h))
              w)
        | inr q ↦ rw q (rest w)
      ]

  free_differs :
      (k id : String) (f : SpeechEvent F) (d : Dict String (SpeechEvent F))
      → has_event (lookup k d) ≡ false
      → lookup id d ≡ some f
      → (k == id) ≡ false
  free_differs k id f d q h = elim (Bool-cases (k == id)) [
    | inr r ↦ r
    | inl r ↦
        let free = subst (λ x. has_event (lookup x d) ≡ false) ((string_eq.beq_iff k id).0 r) q in
        ground (arith, free, h)
  ]

  pub add_pauses-Stays :
      (id : String) (f : SpeechEvent F) (es : List (SpeechEvent F)) → Stays id f (add_pauses es)
  unfolding add_pauses
  add_pauses-Stays id f [] w h = h
  add_pauses-Stays id f (e ∷ es) w h =
      let rest = add_pauses-Stays id f es in
      elim (Bool-cases (has_event (lookup e.id w.speech_events))) [
        | inl q ↦ rw q (rest w h)
        | inr q ↦
            let n = free_differs e.id id f w.speech_events q h in
            rw q (
              then-Stays id f (settle e) (λ x. add_pauses es >>= λ later. pure (x ∷ later))
                (settle_other id f e n)
                (λ x. then-Stays id f (add_pauses es) (λ later. pure (x ∷ later)) rest (λ l v k. k))
                w h)
      ]

  pub put_events-IsKeyed :
      (es : List (SpeechEvent F)) (w : Live F)
      → IsKeyed w.speech_events
      → IsKeyed (put_events es w).speech_events
  put_events-IsKeyed [] w h = h
  put_events-IsKeyed (e ∷ es) w h =
      put_events-IsKeyed es (put_event e w) (insert-IsKeyed e w.speech_events h)

  pub put_events_same :
      (es : List (SpeechEvent F)) (v w : Live F)
      → v.speech_events ≡ w.speech_events
      → (put_events es v).speech_events ≡ (put_events es w).speech_events
  put_events_same [] v w h = h
  put_events_same (e ∷ es) v w h =
      put_events_same es (put_event e v) (put_event e w) (ap (insert e.id e) h)

  pub put_events-transcript :
      (es : List (SpeechEvent F)) (w : Live F) → (put_events es w).transcript ≡ w.transcript
  put_events-transcript [] w = refl
  put_events-transcript (e ∷ es) w = put_events-transcript es (put_event e w)

  -- Publishing leaves the events and the transcript as they are.
  pub publish_speech-Stays :
      (id : String) (f : SpeechEvent F) (b : Bool) (es : List (SpeechEvent F))
      → Stays id f (publish_speech b es)
  unfolding publish_speech
  publish_speech-Stays id f b [] w h = h
  publish_speech-Stays id f b (e ∷ es) w h = h

  pub publish_speech_lem :
      (b : Bool) (es : List (SpeechEvent F)) (w : Live F)
      → (v : Live F) × (publish_speech b es w ≡ (ok tt, v))
        × (v.speech_events ≡ w.speech_events)
        × (v.transcript ≡ w.transcript)
  unfolding publish_speech
  publish_speech_lem b [] w = (w, refl, refl, refl)
  publish_speech_lem b (e ∷ es) w = (_, refl, refl, refl)

  publish_tokens-Stays :
      (id : String) (f : SpeechEvent F) (b : Bool) (ts : List (WordToken (Confidence F)))
      (o : Option (WordToken (Confidence F)))
      → Stays id f (publish_tokens b ts o)
  publish_tokens-Stays id f b ts none w h = h
  publish_tokens-Stays id f b ts (some t) w h = h

  pub publish_transcript-Stays :
      (id : String) (f : SpeechEvent F) (b : Bool) → Stays id f (publish_transcript b)
  unfolding publish_transcript
  publish_transcript-Stays id f b w h = publish_tokens-Stays id f b _ _ w h
