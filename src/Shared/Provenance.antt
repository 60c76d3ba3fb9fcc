-- ===== src/Shared/Provenance.antt =====
-- src/evidence_engine/domain/shared/provenance.py and identifiers.py. An identifier is its text;
-- what the program compares is that text.
use oratoria_engine.Prelude.{ℕ, String, ◌≡◌, ◌↔◌, Bool, true, ◌&&◌, ◌||◌, eqb, arith, Eq, is_blank}
use oratoria_engine.Prelude.Int.{ℤ, pos, pos_part, ltb_ℤ}
use oratoria_engine.Shared.Errors.{Result, ok, invalid_identifier, raise_if, ◌>>◌}

-- `Identifier(value)`
unfoldable pub identifier : String → Result String
identifier value = do raise_if (is_blank value) invalid_identifier; ok value

pub data Modality : Type 0 where
  audio video multimodal : Modality

modality_index : Modality → ℕ
modality_index audio = 0
modality_index video = 1
modality_index multimodal = 2

unfoldable pub same_modality : Modality → Modality → Bool
unfolding modality_index
same_modality a b = eqb (modality_index a) (modality_index b)

pub same_modality_iff : (a b : Modality) → (same_modality a b ≡ true) ↔ (a ≡ b)
unfolding same_modality
same_modality_iff a b = ground arith

instance abbrev pub modality_eq : Eq Modality
modality_eq = record { beq = same_modality; beq_iff = same_modality_iff }

pub record SemanticVersion : Type 0 where
  pub major : ℕ
  pub minor : ℕ
  pub patch : ℕ

-- `SemanticVersion(major, minor, patch)`
unfoldable pub semantic_version : ℤ → ℤ → ℤ → Result SemanticVersion
semantic_version major minor patch = do
  raise_if (ltb_ℤ major (pos 0) || ltb_ℤ minor (pos 0) || ltb_ℤ patch (pos 0)) invalid_identifier
  ok (record { major = pos_part major; minor = pos_part minor; patch = pos_part patch })

unfoldable pub is_compatible_with : SemanticVersion → SemanticVersion → Bool
is_compatible_with v other = eqb v.major other.major

unfoldable pub same_version : SemanticVersion → SemanticVersion → Bool
same_version v w = eqb v.major w.major && eqb v.minor w.minor && eqb v.patch w.patch

pub same_version_iff : (v w : SemanticVersion) → (same_version v w ≡ true) ↔ (v ≡ w)
unfolding same_version
same_version_iff v w = ground arith

pub record Provenance : Type 0 where
  pub modality : Modality
  pub model_version : String
  pub taxonomy_version : SemanticVersion
  pub configuration : String
  pub evidence_ref : String
