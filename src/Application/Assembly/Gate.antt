-- ===== src/Application/Assembly/Gate.antt =====
-- The gate on optional visual classes: the assembler asks the configured threshold, the constructor
-- of the event asks the fixed one.
use oratoria_engine.Prelude.{
  String, true, false, not, ◌&&◌, Bool-cases, none, some, if◌then◌else◌, ◌≡◌, inl, inr, refl, ◌∙◌,
  arith,
}
use oratoria_engine.Shared.Errors.{Result, ok, raised, visual_event_violation}
use oratoria_engine.Shared.Provenance.{Provenance, video, same_modality_iff}
use oratoria_engine.Shared.Timeline.{Interval}
use oratoria_engine.Shared.Measurement.{Floats, Confidence, meets}
use oratoria_engine.Shared.Taxonomy.{VisualEventType, visual_value}
use oratoria_engine.Events.Visual.{
  VisualEvent, visual_event, is_optional, is_gaze, require_video_modality,
  require_direction_only_on_gaze, require_threshold_on_optional_classes,
}
use oratoria_engine.Events.Sight.{Directed}
use oratoria_engine.Application.Assembly.Identity.{derive_event_id}
use oratoria_engine.Application.Assembly.Speech.{ConfigurationSnapshot, window_of}
use oratoria_engine.Application.Assembly.Visual.{
  Thresholds, VisualEventHypothesis, is_gated, threshold_for, event,
}

-- The classes that the assembler gates are those that the constructor gates.
gated_is_optional : (t : VisualEventType) → is_gated t ≡ is_optional t
unfolding is_gated is_optional
gated_is_optional t = ground arith

module _ (fl : Floats) (th : Thresholds fl.F) (digest : String → String) (run_id : String)
    (calibrate : String → fl.F → Result (Confidence fl.F)) where
  -- The event that the assembler builds.
  abbrev pub built :
      Provenance → VisualEventHypothesis fl.F → Interval → Confidence fl.F → VisualEvent fl.F
  built p h w c = record {
    id = derive_event_id digest run_id (visual_value h.type) h.start_ms "";
    type = h.type;
    interval = w;
    confidence = c;
    provenance = p;
    direction = h.direction;
    magnitude = h.magnitude;
    is_final = false;
  }

  module _ (cf : ConfigurationSnapshot fl.F) (p : Provenance) (h : VisualEventHypothesis fl.F)
      (w : Interval) (c : Confidence fl.F) where
    constructed :
        p.modality ≡ video
        → Directed (is_gaze h.type) h.direction
        → visual_event fl th.optional_class_min_confidence (built p h w c) ≡ (
            if is_gated h.type && not (meets fl c th.optional_class_min_confidence)
            then raised visual_event_violation
            else ok (built p h w c))
    unfolding visual_event require_video_modality require_direction_only_on_gaze
        require_threshold_on_optional_classes
    constructed m d = ground (arith, gated_is_optional h.type, same_modality_iff p.modality video)

    abbrev pub configured : fl.F
    configured = threshold_for fl th cf.visual_thresholds h.type

    -- What a hypothesis comes to when its stretch and its score are accepted and its direction suits its
    -- class, by the two thresholds: nothing, its event, or the constructor's error.
    pub event_lem :
        p.modality ≡ video
        → window_of h.start_ms h.end_ms ≡ ok w
        → calibrate (visual_value h.type) h.score ≡ ok c
        → Directed (is_gaze h.type) h.direction
        → event fl th digest run_id calibrate cf p h ≡ (
            if is_gated h.type && not (meets fl c configured)
            then ok none
            else if is_gated h.type && not (meets fl c th.optional_class_min_confidence)
            then raised visual_event_violation
            else ok (some (built p h w c)))
    unfolding event
    event_lem m a b d = elim (Bool-cases (is_gated h.type && not (meets fl c configured))) [
      | inl e ↦ rw (b, e) refl
      | inr e ↦ rw (b, e, a, constructed m d) (ground arith)
    ]

    -- A configured threshold below the fixed one: a gated class whose calibrated confidence lies between the
    -- two passes the gate, and its constructor raises.
    pub lowered_threshold_raises :
        p.modality ≡ video
        → window_of h.start_ms h.end_ms ≡ ok w
        → calibrate (visual_value h.type) h.score ≡ ok c
        → Directed (is_gaze h.type) h.direction
        → is_gated h.type ≡ true
        → meets fl c configured ≡ true
        → meets fl c th.optional_class_min_confidence ≡ false
        → event fl th digest run_id calibrate cf p h ≡ raised visual_event_violation
    lowered_threshold_raises m a b d g e f = event_lem m a b d ∙ rw (g, e, f) refl
