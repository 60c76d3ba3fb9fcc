-- ===== src/Evidence/Document.antt =====
-- src/evidence_engine/domain/evidence/document.py: the published result of a session, and the scan of
-- a payload for keys that would rank its findings. `lower` is `str.lower`; an offender is its path,
-- which the source renders as a text.
pub mod Ranking
mod Tests
use oratoria_engine.Prelude.{
  ℕ, suc, ◌+◌, String, Bool, true, false, not, ◌||◌, List, [], ◌∷◌, ◌++◌, keep, length, Dict,
  contains, string_eq, if◌then◌else◌,
}
use oratoria_engine.Shared.Errors.{Result, ok, result_violation, raise_if, ◌>>◌}
use oratoria_engine.Shared.Provenance.{
  Modality, SemanticVersion, same_version, audio, video, multimodal,
}
use oratoria_engine.Shared.Measurement.{Confidence}
use oratoria_engine.Shared.Taxonomy.{taxonomy_version}
use oratoria_engine.Transcript.{Transcript}
use oratoria_engine.Quality.{QualityReport}
use oratoria_engine.Events.Speech.{SpeechEvent}
use oratoria_engine.Events.Visual.{VisualEvent}
use oratoria_engine.Events.Prosody.{ProsodyReading, reading_is_available}
use oratoria_engine.Evidence.Cooccurrence.{MultimodalCooccurrence}

abbrev pub forbidden_result_keys : List String
forbidden_result_keys =
    "rank" ∷ "ranking" ∷ "ranked" ∷ "score" ∷ "scores" ∷ "priority" ∷ "priority_score" ∷ "severity"
    ∷ "top_k" ∷ "topk" ∷ "selected" ∷ "recommendation" ∷ "recommendations" ∷ "intervention"
    ∷ "interventions" ∷ "exercise" ∷ "exercises" ∷ []

pub record ProvenanceManifest : Type 0 where
  pub pipeline_version : SemanticVersion
  pub schema_version : SemanticVersion
  pub taxonomy : SemanticVersion
  pub configuration : String
  pub models : Dict Modality String

-- `ProvenanceManifest(...)`: the manifest whose fields are given, checked by `__post_init__`
unfoldable pub provenance_manifest : ProvenanceManifest → Result ProvenanceManifest
provenance_manifest m = do
  raise_if (not (same_version m.taxonomy taxonomy_version)) result_violation
  ok m

pub record EvidenceDocument (F : Type 0) : Type 0 where
  pub session_id : String
  pub run_id : String
  pub manifest : ProvenanceManifest
  pub transcript : Transcript (Confidence F)
  pub quality : QualityReport F
  pub speech_events : List (SpeechEvent F)
  pub visual_events : List (VisualEvent F)
  pub prosody : List (ProsodyReading F)
  pub cooccurrences : List MultimodalCooccurrence

-- the class constant
abbrev pub ranking_authority : String
ranking_authority = "none"

-- `bool(xs)` of a tuple
abbrev pub is_filled {ℓ} : {A : Type ℓ} → List A → Bool
is_filled [] = false
is_filled (x ∷ xs) = true

module _ {F : Type 0} where
  unfoldable pub has_speech_evidence : EvidenceDocument F → Bool
  has_speech_evidence d = is_filled d.transcript.tokens || is_filled d.speech_events

  unfoldable pub has_visual_evidence : EvidenceDocument F → Bool
  has_visual_evidence d = is_filled d.visual_events

  unfoldable pub unavailable_indicators : EvidenceDocument F → List (ProsodyReading F)
  unavailable_indicators d = keep (λ r. not (reading_is_available r)) d.prosody

  unfoldable pub events_from : EvidenceDocument F → Modality → ℕ
  events_from d audio = length d.speech_events
  events_from d video = length d.visual_events
  events_from d multimodal = length d.cooccurrences

-- A payload: a mapping, a sequence, or a value that is neither.
mutual
  pub data Node : Type 0 where
    leaf : String → Node
    mapping : Entries → Node
    sequence : Elements → Node

  pub data Entries : Type 0 where
    no_entry : Entries
    entry : String → Node → Entries → Entries

  pub data Elements : Type 0 where
    no_element : Elements
    element : Node → Elements → Elements

pub data Hop : Type 0 where
  at_key : String → Hop
  at_index : ℕ → Hop

module _ (lower : String → String) where
  -- `str(key).lower() in FORBIDDEN_RESULT_KEYS`
  unfoldable pub is_forbidden : String → Bool
  is_forbidden key = contains (lower key) forbidden_result_keys

  -- `_forbidden_keys_in(node, path)`, the paths from the root on
  unfoldable mutual
    unfolding is_forbidden

    pub forbidden_keys_in : Node → List Hop → List (List Hop)
    forbidden_keys_in (leaf text) path = []
    forbidden_keys_in (mapping entries) path = forbidden_in_entries entries path
    forbidden_keys_in (sequence elements) path = forbidden_in_elements elements 0 path

    pub forbidden_in_entries : Entries → List Hop → List (List Hop)
    forbidden_in_entries no_entry path = []
    forbidden_in_entries (entry key value rest) path =
        let here = path ++ at_key key ∷ [] in
        (if is_forbidden key then here ∷ [] else [])
        ++ forbidden_keys_in value here
        ++ forbidden_in_entries rest path

    pub forbidden_in_elements : Elements → ℕ → List Hop → List (List Hop)
    forbidden_in_elements no_element index path = []
    forbidden_in_elements (element value rest) index path =
        forbidden_keys_in value (path ++ at_index index ∷ [])
        ++ forbidden_in_elements rest (suc index) path

  unfoldable pub assert_carries_no_ranking : Entries → Result (Unit {0})
  unfolding forbidden_keys_in
  assert_carries_no_ranking payload =
      raise_if (is_filled (forbidden_keys_in (mapping payload) [])) result_violation
