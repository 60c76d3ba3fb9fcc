-- ===== src/Shared/Taxonomy/Labels.antt =====
-- The labels that src/evidence_engine/domain/shared/taxonomy.py lets a producer use: the lookup of
-- a class by its text, and the concepts that no label may name.
use oratoria_engine.Prelude.{
  String, List, [], ◌∷◌, ◌≡◌, ◌↔◌, inl, inr, refl, subst, ap, Bool, true, false, if◌then◌else◌,
  Bool-cases, ◌==◌, string_eq, contains, keep, arith,
}
use oratoria_engine.Shared.Errors.{Error, Result, Result-cases, ok, raised, prohibited_label}
use oratoria_engine.Shared.Taxonomy.{
  EventPriority, SpeechEventType, VisualEventType, cut_off, face_visibility_loss, false_start,
  filled_pause, gaze_away_from_camera, gaze_toward_camera, insufficient_framing,
  insufficient_lighting, lexical_filler, p0, p1, posture_deviation, prolongation, repetition,
  repetitive_hand_movement, repetitive_torso_movement, self_repair, self_touch, silent_pause,
  speech_event_types, speech_value, unintelligible, visual_event_types, visual_value,
}
use oratoria_engine.Shared.Taxonomy.Definitions.{speech_definition}

module _ {A : Type 0} where
  -- The member of an enumeration whose text is `identifier`: `A(identifier)`.
  unfoldable pub member : (A → String) → List A → String → Result A
  member value [] identifier = raised prohibited_label
  member value (x ∷ xs) identifier =
      let rest = member value xs identifier in if value x == identifier then ok x else rest

unfoldable pub require_known_speech_event : String → Result SpeechEventType
require_known_speech_event identifier = member speech_value speech_event_types identifier

unfoldable pub require_known_visual_event : String → Result VisualEventType
require_known_visual_event identifier = member visual_value visual_event_types identifier

abbrev pub prohibited_concepts : List String
prohibited_concepts =
    "emotion" ∷ "emotional" ∷ "mood" ∷ "affect" ∷ "sentiment" ∷ "anxiety" ∷ "anxious" ∷ "nervous"
    ∷ "nervousness" ∷ "stress" ∷ "stressed" ∷ "fear" ∷ "confidence_level" ∷ "insecurity"
    ∷ "insecure" ∷ "personality" ∷ "trait" ∷ "deception" ∷ "deceptive" ∷ "lying" ∷ "truthfulness"
    ∷ "diagnosis" ∷ "diagnostic" ∷ "disorder" ∷ "stutter" ∷ "stuttering" ∷ "pathology" ∷ "clinical"
    ∷ "symptom" ∷ []

is_p0 : EventPriority → Bool
is_p0 p0 = true
is_p0 p1 = false

unfoldable pub p0_speech_events : List SpeechEventType
unfolding is_p0 speech_definition
p0_speech_events = keep (λ event. is_p0 (speech_definition event).priority) speech_event_types

module _ {A : Type 0} (value : A → String) where
  member_sound : (xs : List A) (s : String) (x : A) → member value xs s ≡ ok x → value x ≡ s
  unfolding member
  member_sound [] s x h = grind (arith, h)
  member_sound (y ∷ ys) s x h = elim (Bool-cases (value y == s)) [
    | inl e ↦ ground (arith, string_eq.beq_iff (value y) s)
    | inr e ↦ member_sound ys s x (ground arith)
  ]

require-value : (t : SpeechEventType) → require_known_speech_event (speech_value t) ≡ ok t
unfolding require_known_speech_event member speech_value
require-value filled_pause = refl
require-value lexical_filler = refl
require-value repetition = refl
require-value false_start = refl
require-value self_repair = refl
require-value cut_off = refl
require-value prolongation = refl
require-value silent_pause = refl
require-value unintelligible = refl

require-visual_value : (t : VisualEventType) → require_known_visual_event (visual_value t) ≡ ok t
unfolding require_known_visual_event member visual_value
require-visual_value gaze_toward_camera = refl
require-visual_value gaze_away_from_camera = refl
require-visual_value face_visibility_loss = refl
require-visual_value insufficient_lighting = refl
require-visual_value insufficient_framing = refl
require-visual_value posture_deviation = refl
require-visual_value repetitive_torso_movement = refl
require-visual_value self_touch = refl
require-visual_value repetitive_hand_movement = refl

-- A text is accepted as a speech class exactly when it is the text of that class, and as a visual
-- class exactly when it is the text of that visual class.
pub require_known_iff :
    (s : String)
    → ((t : SpeechEventType) → (require_known_speech_event s ≡ ok t) ↔ (speech_value t ≡ s))
      × ((t : VisualEventType) → (require_known_visual_event s ≡ ok t) ↔ (visual_value t ≡ s))
unfolding require_known_speech_event require_known_visual_event
require_known_iff s = (
  λ t. (
    member_sound speech_value speech_event_types s t,
    λ e. subst (λ u. require_known_speech_event u ≡ ok t) e (require-value t),
  ),
  λ t. (
    member_sound visual_value visual_event_types s t,
    λ e. subst (λ u. require_known_visual_event u ≡ ok t) e (require-visual_value t),
  ),
)

member_raises :
    {A : Type 0} (value : A → String) (xs : List A) (s : String) (e : Error)
    → member value xs s ≡ raised e
    → member value xs s ≡ raised prohibited_label
unfolding member
member_raises value [] s e h = refl
member_raises value (y ∷ ys) s e h = elim (Bool-cases (value y == s)) [
  | inl k ↦ ground arith
  | inr k ↦ rw k (member_raises value ys s e (ground arith))
]

speech_is_clean : (t : SpeechEventType) → contains (speech_value t) prohibited_concepts ≡ false
unfolding speech_value
speech_is_clean filled_pause = refl
speech_is_clean lexical_filler = refl
speech_is_clean repetition = refl
speech_is_clean false_start = refl
speech_is_clean self_repair = refl
speech_is_clean cut_off = refl
speech_is_clean prolongation = refl
speech_is_clean silent_pause = refl
speech_is_clean unintelligible = refl

visual_is_clean : (t : VisualEventType) → contains (visual_value t) prohibited_concepts ≡ false
unfolding visual_value
visual_is_clean gaze_toward_camera = refl
visual_is_clean gaze_away_from_camera = refl
visual_is_clean face_visibility_loss = refl
visual_is_clean insufficient_lighting = refl
visual_is_clean insufficient_framing = refl
visual_is_clean posture_deviation = refl
visual_is_clean repetitive_torso_movement = refl
visual_is_clean self_touch = refl
visual_is_clean repetitive_hand_movement = refl

clash :
    {A : Type 0} (u s : String)
    → u ≡ s
    → contains u prohibited_concepts ≡ false
    → contains s prohibited_concepts ≡ true
    → A
clash u s e k h = absurd (cc (ap (λ x. contains x prohibited_concepts) e))

-- A text that is one of the prohibited concepts is refused as a speech class and as a visual class.
pub prohibited_is_refused :
    (s : String)
    → contains s prohibited_concepts ≡ true
    → (require_known_speech_event s ≡ raised prohibited_label)
      × (require_known_visual_event s ≡ raised prohibited_label)
unfolding require_known_speech_event require_known_visual_event
prohibited_is_refused s h = (
  elim (Result-cases (require_known_speech_event s)) [
    | inl (t, e) ↦ clash (speech_value t) s (((require_known_iff s).0 t).0 e) (speech_is_clean t) h
    | inr (x, e) ↦ member_raises speech_value speech_event_types s x e
  ],
  elim (Result-cases (require_known_visual_event s)) [
    | inl (t, e) ↦ clash (visual_value t) s (((require_known_iff s).1 t).0 e) (visual_is_clean t) h
    | inr (x, e) ↦ member_raises visual_value visual_event_types s x e
  ],
)
