-- ===== src/Corpus/Records.antt =====
-- src/corpus/schema/records.py: what one annotator wrote about one recording. `sc` is what the code
-- uses of the floats.
use oratoria_engine.Prelude.{
  ℕ, ◌+◌, ◌-◌, String, Bool, true, false, not, ◌&&◌, Option, none, some, List, [], ◌∷◌, eqb, ltb,
  leb, is_blank, if◌then◌else◌, ◌==◌, string_eq, keep, length,
}
use oratoria_engine.Prelude.Int.{ℤ, pos, pos_part, ltb_ℤ}
use oratoria_engine.Shared.Errors.{Result, ok, schema_violation, raise_if, ◌>>◌, ◌>>=◌}
use oratoria_engine.Shared.Taxonomy.{
  ContextualRole, SpeechEventType, cut_off, false_start, filled_pause, lexical_filler, prolongation,
  repetition, self_repair, silent_pause, speech_value, uncertain, unintelligible,
}
use oratoria_engine.Shared.Taxonomy.Labels.{require_known_speech_event}
use oratoria_engine.Shared.Provenance.{SemanticVersion}
use oratoria_engine.Events.Speech.{is_none}
use oratoria_engine.Corpus.Scores.{Scores}

pub data AnnotationPass : Type 0 where
  first second adjudicated : AnnotationPass

pub record Interval : Type 0 where
  pub start_ms : ℕ
  pub end_ms : ℕ

-- `Interval(start_ms, end_ms)`
unfoldable pub interval : ℤ → ℤ → Result Interval
interval start_ms end_ms = do
  raise_if (ltb_ℤ start_ms (pos 0)) schema_violation
  raise_if (not (ltb_ℤ start_ms end_ms)) schema_violation
  ok (record { start_ms = pos_part start_ms; end_ms = pos_part end_ms })

unfoldable pub duration_ms : Interval → ℕ
duration_ms i = i.end_ms - i.start_ms

unfoldable pub overlaps : Interval → Interval → Bool
overlaps i other = ltb i.start_ms other.end_ms && ltb other.start_ms i.end_ms

abbrev pub smaller : ℕ → ℕ → ℕ
smaller a b = if leb a b then a else b

abbrev pub larger : ℕ → ℕ → ℕ
larger a b = if leb a b then b else a

-- `max(0, ...)` is the subtraction that stops at 0.
unfoldable pub intersection_ms : Interval → Interval → ℕ
intersection_ms i other = smaller i.end_ms other.end_ms - larger i.start_ms other.start_ms

unfoldable pub union_ms : Interval → Interval → ℕ
unfolding duration_ms intersection_ms
union_ms i other = duration_ms i + duration_ms other - intersection_ms i other

unfoldable pub iou : (sc : Scores) → Interval → Interval → sc.W
iou sc i other =
    let union = union_ms i other in
    if eqb union 0 then sc.zero else sc.ratio (intersection_ms i other) union

pub record Word : Type 0 where
  pub text : String
  pub interval : Interval

-- `Word(text, interval)`
unfoldable pub word : String → Interval → Result Word
word text interval = do
  raise_if (is_blank text) schema_violation
  ok (record { text = text; interval = interval })

pub record DisfluencyAnnotation (W : Type 0) : Type 0 where
  pub event_type : SpeechEventType
  pub interval : Interval
  pub annotator_id : String
  pub raw_text : String
  pub context_role : Option ContextualRole
  pub annotator_confidence : W
  pub note : String

-- Membership of `LEXICAL_CLASSES`
unfoldable pub is_lexical_class : SpeechEventType → Bool
is_lexical_class filled_pause = false
is_lexical_class lexical_filler = true
is_lexical_class repetition = true
is_lexical_class false_start = true
is_lexical_class self_repair = true
is_lexical_class cut_off = false
is_lexical_class prolongation = false
is_lexical_class silent_pause = false
is_lexical_class unintelligible = false

unfoldable pub require_role_rules : {W : Type 0} → DisfluencyAnnotation W → Result (Unit {0})
require_role_rules a =
    if is_lexical_class a.event_type
    then (do
      raise_if (is_blank a.raw_text) schema_violation
      raise_if (is_none a.context_role) schema_violation)
    else raise_if (not (is_none a.context_role)) schema_violation

-- `DisfluencyAnnotation(...)`: the annotation whose fields are given, checked by `__post_init__`
unfoldable pub disfluency_annotation :
    (sc : Scores) → DisfluencyAnnotation sc.W → Result (DisfluencyAnnotation sc.W)
unfolding require_role_rules
disfluency_annotation sc a = do
  raise_if (is_blank a.annotator_id) schema_violation
  raise_if (not (sc.le sc.zero a.annotator_confidence && sc.le a.annotator_confidence sc.one))
      schema_violation
  event_type ← require_known_speech_event (speech_value a.event_type)
  require_role_rules a
  ok a

abbrev pub role_is_uncertain : Option ContextualRole → Bool
role_is_uncertain none = false
role_is_uncertain (some uncertain) = true
role_is_uncertain (some _) = false

unfoldable pub is_uncertain : {W : Type 0} → DisfluencyAnnotation W → Bool
is_uncertain a = role_is_uncertain a.context_role

-- `AnnotatedRecording`, with the speaker as the text of the pseudonym.
pub record AnnotatedRecording (W : Type 0) : Type 0 where
  pub recording_id : String
  pub pseudonym : String
  pub annotator_id : String
  pub annotation_pass : AnnotationPass
  pub duration_ms : ℕ
  pub words : List Word
  pub disfluencies : List (DisfluencyAnnotation W)
  pub schema_version : SemanticVersion
  pub taxonomy_version : Option SemanticVersion
  pub note : String

module _ {W : Type 0} where
  -- The checks of the loop over `disfluencies`.
  unfoldable pub check_annotations : String → ℕ → List (DisfluencyAnnotation W) → Result (Unit {0})
  check_annotations annotator duration [] = ok tt
  check_annotations annotator duration (a ∷ rest) = do
    raise_if (not (a.annotator_id == annotator)) schema_violation
    raise_if (ltb duration a.interval.end_ms) schema_violation
    check_annotations annotator duration rest

  -- `AnnotatedRecording(...)`: the recording whose fields are given, checked by `__post_init__`
  unfoldable pub annotated_recording : AnnotatedRecording W → Result (AnnotatedRecording W)
  unfolding check_annotations
  annotated_recording r = do
    raise_if (is_blank r.recording_id) schema_violation
    raise_if (eqb r.duration_ms 0) schema_violation
    check_annotations r.annotator_id r.duration_ms r.disfluencies
    ok r

  unfoldable pub uncertain_count : AnnotatedRecording W → ℕ
  uncertain_count r = length (keep is_uncertain r.disfluencies)
