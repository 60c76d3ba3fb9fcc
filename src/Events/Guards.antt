-- ===== src/Events/Guards.antt =====
-- What the constructors of the events admit, what `finalize` changes, and how the classes that the
-- files list agree with the documentation table.
use oratoria_engine.Prelude.{
  Bool, true, false, ◌&&◌, not, Option, none, some, ◌≡◌, ◌↔◌, ◌⊎◌, inl, inr, refl, is_blank, arith,
  if◌then◌else◌,
}
use oratoria_engine.Shared.Errors.{speech_event_violation, ok, raised}
use oratoria_engine.Shared.Provenance.{audio, same_modality, same_modality_iff}
use oratoria_engine.Shared.Taxonomy.{
  ContextualRole, SpeechEventType, VisualEventType, cut_off, filled_pause, filler,
  lexical_contextual, p1, prolongation,
}
use oratoria_engine.Shared.Taxonomy.Definitions.{speech_definition, visual_definition}
use oratoria_engine.Events.Speech
use oratoria_engine.Events.Visual

-- A word and a role where the class is lexical, no role where it is not.
abbrev Fits : Bool → Bool → Option ContextualRole → Type 0
Fits lex blank role =
    ((lex ≡ true) × (blank ≡ false) × ((r : ContextualRole) × (role ≡ some r)))
    ⊎ ((lex ≡ false) × (role ≡ none))

abbrev fits : Bool → Bool → Option ContextualRole → Bool
fits lex blank role = if lex then not blank && not (Speech.is_none role) else Speech.is_none role

Fits-iff :
    (lex blank : Bool) (role : Option ContextualRole)
    → (fits lex blank role ≡ true) ↔ Fits lex blank role
Fits-iff true true role = (λ h. absurd (ground arith), λ k. ground arith)
Fits-iff true false none = (λ h. absurd (ground arith), λ k. ground arith)
Fits-iff true false (some r) = (λ h. inl (refl, refl, (r, refl)), λ k. refl)
Fits-iff false blank none = (λ h. inr (refl, refl), λ k. refl)
Fits-iff false blank (some r) = (λ h. absurd (ground arith), λ k. ground arith)

module _ {F : Type 0} where
  -- Speech evidence comes from audio; a word class has its word and its role, and no other class has
  -- a role.
  abbrev pub IsHeard : Speech.SpeechEvent F → Type 0
  IsHeard e =
      (e.provenance.modality ≡ audio)
      × Fits (Speech.is_lexical e.type) (is_blank e.raw_text) e.context_role

  -- The guards as one test.
  abbrev heard : Speech.SpeechEvent F → Bool
  heard e =
      same_modality e.provenance.modality audio
      && fits (Speech.is_lexical e.type) (is_blank e.raw_text) e.context_role

  speech_event_lem :
      (e : Speech.SpeechEvent F)
      → Speech.speech_event e ≡ (if heard e then ok e else raised speech_event_violation)
  unfolding Speech.speech_event Speech.require_audio_modality Speech.require_lexical_fields
      Speech.require_no_role_on_acoustic_classes
  speech_event_lem e = ground arith

  IsHeard-iff : (e : Speech.SpeechEvent F) → (heard e ≡ true) ↔ IsHeard e
  IsHeard-iff e = ground (
    arith,
    same_modality_iff e.provenance.modality audio,
    Fits-iff (Speech.is_lexical e.type) (is_blank e.raw_text) e.context_role,
  )

  -- The constructor of a speech event succeeds exactly on the events that were heard, and returns the
  -- event that it was given.
  pub speech_event_iff :
      (e e' : Speech.SpeechEvent F) → (Speech.speech_event e ≡ ok e') ↔ ((e ≡ e') × IsHeard e)
  speech_event_iff e e' = ground (arith, speech_event_lem e, IsHeard-iff e)

  -- An event that its constructor admitted is finalized without an error: only `is_final` changes, and
  -- the result is again admitted. What was final already is returned as it is.
  pub finalize-ok :
      (e : Speech.SpeechEvent F)
      → IsHeard e
      → (Speech.finalize e ≡ ok (record e { is_final = true }))
        × (Speech.speech_event (record e { is_final = true }) ≡ ok (record e { is_final = true }))
  unfolding Speech.finalize
  finalize-ok e h =
      let made =
        (speech_event_iff (record e { is_final = true }) (record e { is_final = true })).1
          (refl, h) in
      (ground (arith, made), made)

  -- An admitted event counts as a disfluency exactly when its role is filler, or it is a filled
  -- pause, a cut-off or a prolongation.
  pub counts_as_disfluency_iff :
      (e : Speech.SpeechEvent F)
      → IsHeard e
      → (Speech.counts_as_disfluency e ≡ true) ↔ (
          (e.context_role ≡ some filler)
          ⊎ (e.type ≡ filled_pause)
          ⊎ (e.type ≡ cut_off)
          ⊎ (e.type ≡ prolongation))
  unfolding Speech.counts_as_disfluency Speech.is_disfluent Speech.is_lexical
  counts_as_disfluency_iff e h = ground arith

-- The lists of classes in the two files of events agree with the documentation table: a speech class
-- is lexical exactly when its basis is a word in its context, and a visual class is optional exactly when its
-- priority is P1.
pub classes_agree :
    ((t : SpeechEventType)
      → (Speech.is_lexical t ≡ true) ↔ ((speech_definition t).basis ≡ lexical_contextual))
    × ((t : VisualEventType)
        → (Visual.is_optional t ≡ true) ↔ ((visual_definition t).priority ≡ p1))
unfolding Speech.is_lexical Visual.is_optional speech_definition visual_definition
classes_agree = (λ t. ground arith, λ t. ground arith)
