-- ===== src/Sessions/Capabilities.antt =====
-- src/evidence_engine/domain/sessions/capabilities.py: negotiation before capture.
pub mod Agreement
mod Tests
use oratoria_engine.Prelude.{
  ℕ, String, Bool, true, false, not, ◌&&◌, Option, none, some, List, [], ◌∷◌, ◌==◌, contains, any,
  if◌then◌else◌, nat_eq, string_eq,
}
use oratoria_engine.Prelude.Int.{ℤ, pos, pos_part, leb_ℤ, eqb_ℤ}
use oratoria_engine.Shared.Errors.{
  Result, ok, raised, unsupported_capability, raise_if, ◌>>=◌, ◌>>◌,
}

pub data AudioCodec : Type 0 where
  pcm16 flac opus aac : AudioCodec

pub data VideoFormat : Type 0 where
  jpeg_frames png_frames landmarks : VideoFormat

-- the values of the two enums
unfoldable pub codec_value : AudioCodec → String
codec_value pcm16 = "pcm16"
codec_value flac = "flac"
codec_value opus = "opus"
codec_value aac = "aac"

unfoldable pub format_value : VideoFormat → String
format_value jpeg_frames = "jpeg_frames"
format_value png_frames = "png_frames"
format_value landmarks = "landmarks"

abbrev pub supported_sample_rates_hz : List ℕ
supported_sample_rates_hz = 16000 ∷ 22050 ∷ 24000 ∷ 44100 ∷ 48000 ∷ []

abbrev pub min_frame_rate_fps : ℕ
min_frame_rate_fps = 5

abbrev pub max_frame_rate_fps : ℕ
max_frame_rate_fps = 60

abbrev pub supported_locales : List String
supported_locales = "es-PE" ∷ []

pub record CapabilityRequest : Type 0 where
  pub audio_codec : String
  pub sample_rate_hz : ℤ
  pub locale : String
  pub video_format : Option String
  pub frame_rate_fps : Option ℤ

pub record NegotiatedCapabilities : Type 0 where
  pub audio_codec : AudioCodec
  pub sample_rate_hz : ℕ
  pub locale : String
  pub video_format : Option VideoFormat
  pub frame_rate_fps : Option ℕ

unfoldable pub has_video : NegotiatedCapabilities → Bool
has_video c = elim c.video_format [ none ↦ false | some _ ↦ true ]

-- membership in `_LOSSY_CODECS`
is_lossy : AudioCodec → Bool
is_lossy opus = true
is_lossy aac = true
is_lossy _ = false

unfoldable pub requires_quality_warning : NegotiatedCapabilities → Bool
unfolding is_lossy
requires_quality_warning c = is_lossy c.audio_codec

-- `AudioCodec(requested)`, a lookup by value
codec_of : String → Option AudioCodec
codec_of s =
    if s == "pcm16"
    then some pcm16
    else if s == "flac"
    then some flac
    else if s == "opus"
    then some opus
    else if s == "aac"
    then some aac
    else none

format_of : String → Option VideoFormat
format_of s =
    if s == "jpeg_frames"
    then some jpeg_frames
    else if s == "png_frames"
    then some png_frames
    else if s == "landmarks"
    then some landmarks
    else none

abbrev or_unsupported {ℓ} : {A : Type ℓ} → Option A → Result A
or_unsupported none = raised unsupported_capability
or_unsupported (some a) = ok a

unfoldable pub resolve_codec : String → Result AudioCodec
unfolding codec_of
resolve_codec requested = or_unsupported (codec_of requested)

resolve_format : String → Option ℤ → Result (Option VideoFormat × Option ℕ)
resolve_format requested frame_rate = do
  video_format ← or_unsupported (format_of requested)
  fps ← or_unsupported frame_rate
  raise_if (not (leb_ℤ (pos min_frame_rate_fps) fps && leb_ℤ fps (pos max_frame_rate_fps)))
      unsupported_capability
  ok (some video_format, some (pos_part fps))

abbrev without_video : Option ℤ → Result (Option VideoFormat × Option ℕ)
without_video none = ok (none, none)
without_video (some fps) = raised unsupported_capability

unfoldable pub resolve_video : CapabilityRequest → Result (Option VideoFormat × Option ℕ)
unfolding resolve_format format_of
resolve_video request = elim request.video_format [
  | none ↦ without_video request.frame_rate_fps
  | some requested ↦ resolve_format requested request.frame_rate_fps
]

-- `in SUPPORTED_SAMPLE_RATES_HZ`
unfoldable pub rate_is_supported : ℤ → Bool
rate_is_supported rate_hz = any (λ rate. eqb_ℤ rate_hz (pos rate)) supported_sample_rates_hz

-- `in SUPPORTED_LOCALES`
unfoldable pub locale_is_supported : String → Bool
locale_is_supported locale = contains locale supported_locales

unfoldable pub negotiate : CapabilityRequest → Result NegotiatedCapabilities
negotiate request = do
  codec ← resolve_codec request.audio_codec
  raise_if (not (rate_is_supported request.sample_rate_hz)) unsupported_capability
  raise_if (not (locale_is_supported request.locale)) unsupported_capability
  video ← resolve_video request
  ok (record {
    audio_codec = codec;
    sample_rate_hz = pos_part request.sample_rate_hz;
    locale = request.locale;
    video_format = video.0;
    frame_rate_fps = video.1;
  })
