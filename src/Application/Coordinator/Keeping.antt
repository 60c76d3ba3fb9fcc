-- ===== src/Application/Coordinator/Keeping.antt =====
-- The ledger's final entries under what the coordinator publishes and records.
use oratoria_engine.Prelude.{
  String, Bool, true, Bool-cases, Option, none, some, List, [], ◌∷◌, get_last?, lookup, insert, ◌↔◌,
  string_eq, ◌≡◌, inl, inr, refl, sym, ap, ◌∙◌, subst, arith,
}
use oratoria_engine.Shared.Errors.{Result, ok, raised}
use oratoria_engine.Shared.Effects.{Action, ◌>>=◌}
use oratoria_engine.Shared.Respect
use oratoria_engine.Shared.Provenance.{modality_eq}
use oratoria_engine.Shared.Measurement.{Confidence}
use oratoria_engine.Transcript.{WordToken}
use oratoria_engine.Events.Speech.{SpeechEvent}
use oratoria_engine.Events.Visual.{VisualEvent}
use oratoria_engine.Shared.Taxonomy.{speech_value}
use oratoria_engine.Quality.{ModalityAvailability}
use oratoria_engine.Evidence.Ledger
use oratoria_engine.Evidence.Ledger.Histories.{Op, appends, finalizes, step, after, run}
use oratoria_engine.Evidence.Ledger.Freeze.{final_is_frozen}
use oratoria_engine.Application.Coordinator.{
  Live, Payload, Outbound, publish, publish_speech, publish_transcript, publish_tokens,
  publish_unusable, put_event, put_events, put_visuals, with_entry, record_event, known,
}

-- What is final in the first ledger is the same in the second, with the same history.
abbrev pub KeepsFinal : Ledger.EvidenceLedger Payload → Ledger.EvidenceLedger Payload → Type 0
KeepsFinal l l' =
    (j : String) (e : Ledger.LedgerEntry Payload)
    → Ledger.current l j ≡ ok e
    → e.is_final ≡ true
    → (Ledger.current l' j ≡ ok e) × (Ledger.history_of l' j ≡ Ledger.history_of l j)

current_iff :
    (l : Ledger.EvidenceLedger Payload) (j : String) (e : Ledger.LedgerEntry Payload)
    → (Ledger.current l j ≡ ok e) ↔ (get_last? (Ledger.history_of l j) ≡ some e)
unfolding Ledger.history_of Ledger.current
current_iff l j e = (λ h. ground arith, λ h. ground arith)

current-history :
    (l l' : Ledger.EvidenceLedger Payload) (j : String) (e : Ledger.LedgerEntry Payload)
    → Ledger.history_of l' j ≡ Ledger.history_of l j
    → Ledger.current l j ≡ ok e
    → Ledger.current l' j ≡ ok e
current-history l l' j e h k = (current_iff l' j e).1 (ap get_last? h ∙ (current_iff l j e).0 k)

step-KeepsFinal :
    (op : Op Payload) (l : Ledger.EvidenceLedger Payload) → KeepsFinal l (after l (step op l))
unfolding run
step-KeepsFinal op l j e h k =
    let p = (final_is_frozen (op ∷ []) l j e h k).0 in
    (current-history l (after l (step op l)) j e p h, p)

module _ {F : Type 0} where
  abbrev pub Keeps : Live F → Live F → Type 0
  Keeps w w' = KeepsFinal w.ledger w'.ledger

  pub Keeps-refl : (w : Live F) → Keeps w w
  Keeps-refl w j e h k = (h, refl)

  pub Keeps-trans : (u v w : Live F) → Keeps u v → Keeps v w → Keeps u w
  Keeps-trans u v w p q j e h k = let (a, b) = p j e h k in let (c, d) = q j e a k in (c, d ∙ b)

  abbrev pub Safe : {A : Type 0} → Action (Live F) A → Type 0
  Safe m = Respect.Respects Keeps m

  pub then-Safe :
      {A B : Type 0} (m : Action (Live F) A) (f : A → Action (Live F) B)
      → Safe m
      → ((a : A) → Safe (f a))
      → Safe (m >>= f)
  then-Safe = Respect.Respects-bind Keeps Keeps-refl Keeps-trans

  pub put_events-ledger :
      (es : List (SpeechEvent F)) (w : Live F) → (put_events es w).ledger ≡ w.ledger
  put_events-ledger [] w = refl
  put_events-ledger (e ∷ es) w = put_events-ledger es (put_event e w)

  pub put_visuals-ledger :
      (es : List (VisualEvent F)) (w : Live F) → (put_visuals es w).ledger ≡ w.ledger
  put_visuals-ledger [] w = refl
  put_visuals-ledger (e ∷ es) w =
      put_visuals-ledger es (record w { visual_events = insert e.id e w.visual_events })

  pub kept_by : (w w' : Live F) → w'.ledger ≡ w.ledger → Keeps w w'
  kept_by w w' h = subst (λ l. KeepsFinal w.ledger l) (sym h) (Keeps-refl w)

  publish-Safe : (message : Outbound F) → Safe (publish message)
  publish-Safe message w = Keeps-refl w

  pub publish_speech-Safe : (b : Bool) (es : List (SpeechEvent F)) → Safe (publish_speech b es)
  unfolding publish_speech
  publish_speech-Safe b [] w = Keeps-refl w
  publish_speech-Safe b (e ∷ es) w = Keeps-refl w

  publish_tokens-Safe :
      (b : Bool) (ts : List (WordToken (Confidence F))) (o : Option (WordToken (Confidence F)))
      → Safe (publish_tokens b ts o)
  publish_tokens-Safe b ts none w = Keeps-refl w
  publish_tokens-Safe b ts (some t) w = Keeps-refl w

  pub publish_transcript-Safe : (b : Bool) → Safe (publish_transcript {F = F} b)
  unfolding publish_transcript
  publish_transcript-Safe b w = publish_tokens-Safe b _ _ w

  pub publish_unusable-Safe : (rs : List ModalityAvailability) → Safe (publish_unusable {F = F} rs)
  publish_unusable-Safe [] w = Keeps-refl w
  publish_unusable-Safe (r ∷ rs) w = Keeps-refl w

  -- The ledger after a call of it.
  with_entry-ledger :
      (w : Live F) (r : Result (Ledger.LedgerEntry Payload × Ledger.EvidenceLedger Payload))
      → (with_entry r w).1.ledger ≡ after w.ledger r
  with_entry-ledger w (raised e) = refl
  with_entry-ledger w (ok (e, l)) = refl

  entry_kept : (w : Live F) (op : Op Payload) → Keeps w (with_entry (step op w.ledger) w).1
  entry_kept w op =
      subst (λ l. KeepsFinal w.ledger l) (sym (with_entry-ledger w (step op w.ledger)))
        (step-KeepsFinal op w.ledger)

  pub record_event-Safe : (e : SpeechEvent F) → Safe (record_event e)
  unfolding record_event step
  record_event-Safe e w = elim (Bool-cases (known (lookup e.id w.ledger.history))) [
    | inl h ↦ rw h (entry_kept w (finalizes e.id))
    | inr h ↦ rw h (
        entry_kept w (
          appends e.id e.interval e.provenance true
            (record { type = speech_value e.type; raw_text = e.raw_text })))
  ]

  -- After a change that leaves the ledger alone.
  pub after_change :
      {A : Type 0} (w w' : Live F) (m : Action (Live F) A)
      → w'.ledger ≡ w.ledger
      → Safe m
      → Keeps w (m w').1
  after_change w w' m e k = Keeps-trans w w' (m w').1 (kept_by w w' e) (k w')
