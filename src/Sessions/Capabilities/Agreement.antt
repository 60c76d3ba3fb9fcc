-- ===== src/Sessions/Capabilities/Agreement.antt =====
-- What `negotiate` agrees to, and that it refuses all else.
use oratoria_engine.Prelude.{
  ℕ, ◌≤◌, ◌≡◌, ◌↔◌, inl, inr, refl, String, true, Option, none, some, arith, any, eqb, Option-cases,
}
use oratoria_engine.Prelude.Int.{ℤ, pos, negsuc}
use text.Mathlib.TextEquality.{eq_iff}
use oratoria_engine.Shared.Errors.{Error, ok, raised, unsupported_capability}
use oratoria_engine.Sessions.Capabilities.{
  AudioCodec, VideoFormat, CapabilityRequest, NegotiatedCapabilities, codec_value, format_value,
  codec_of, format_of, resolve_codec, resolve_format, resolve_video, negotiate, rate_is_supported,
  locale_is_supported, supported_sample_rates_hz, pcm16, flac, opus, aac, jpeg_frames, png_frames,
  landmarks,
}

-- The request whose fields spell out what was agreed.
abbrev value_of_format : Option VideoFormat → Option String
value_of_format none = none
value_of_format (some f) = some (format_value f)

abbrev as_requested : Option ℕ → Option ℤ
as_requested none = none
as_requested (some n) = some (pos n)

abbrev pub request_of : NegotiatedCapabilities → CapabilityRequest
request_of c = record {
  audio_codec = codec_value c.audio_codec;
  sample_rate_hz = pos c.sample_rate_hz;
  locale = c.locale;
  video_format = value_of_format c.video_format;
  frame_rate_fps = as_requested c.frame_rate_fps;
}

-- A picture stream has a frame rate from 5 to 60, and no picture stream has none.
abbrev pub VideoAgrees : Option VideoFormat → Option ℕ → Type 0
VideoAgrees none none = Unit
VideoAgrees (some f) (some fps) = (5 ≤ fps) × (fps ≤ 60)
VideoAgrees _ _ = ⊥

abbrev pub IsSupported : NegotiatedCapabilities → Type 0
IsSupported c =
    (any (λ rate. eqb c.sample_rate_hz rate) supported_sample_rates_hz ≡ true)
    × (c.locale ≡ "es-PE")
    × VideoAgrees c.video_format c.frame_rate_fps

resolve_codec-codec_value : (k : AudioCodec) → resolve_codec (codec_value k) ≡ ok k
unfolding resolve_codec codec_value
resolve_codec-codec_value pcm16 = refl
resolve_codec-codec_value flac = refl
resolve_codec-codec_value opus = refl
resolve_codec-codec_value aac = refl

resolve_codec_ok : (s : String) (k : AudioCodec) → resolve_codec s ≡ ok k → s ≡ codec_value k
unfolding resolve_codec codec_value
resolve_codec_ok s k h =
    ground (arith, eq_iff s "pcm16", eq_iff s "flac", eq_iff s "opus", eq_iff s "aac")

format_of-format_value : (f : VideoFormat) → format_of (format_value f) ≡ some f
unfolding format_of format_value
format_of-format_value jpeg_frames = refl
format_of-format_value png_frames = refl
format_of-format_value landmarks = refl

format_of-some : (s : String) (f : VideoFormat) → format_of s ≡ some f → s ≡ format_value f
unfolding format_of format_value
format_of-some s f h =
    ground (arith, eq_iff s "jpeg_frames", eq_iff s "png_frames", eq_iff s "landmarks")

resolve_format_ok :
    (s : String) (rate : Option ℤ) (f : Option VideoFormat) (n : Option ℕ)
    → resolve_format s rate ≡ ok (f, n)
    → (some s ≡ value_of_format f) × (rate ≡ as_requested n) × VideoAgrees f n
unfolding resolve_format
resolve_format_ok s rate f n h = elim (Option-cases (format_of s)) [
  | inl e ↦ ground (arith, e)
  | inr (g, e) ↦ ground (arith, e, format_of-some s g e)
]

resolve_format_agrees :
    (f : VideoFormat) (n : ℕ)
    → VideoAgrees (some f) (some n)
    → resolve_format (format_value f) (some (pos n)) ≡ ok (some f, some n)
unfolding resolve_format
resolve_format_agrees f n h = rw (format_of-format_value f) (ground arith)

resolve_video_ok :
    (r : CapabilityRequest) (f : Option VideoFormat) (n : Option ℕ)
    → resolve_video r ≡ ok (f, n)
    → (r.video_format ≡ value_of_format f) × (r.frame_rate_fps ≡ as_requested n) × VideoAgrees f n
unfolding resolve_video
resolve_video_ok r f n h = elim (Option-cases r.video_format) [
  | inl e ↦ ground (arith, e)
  | inr (s, e) ↦ ground (arith, e, resolve_format_ok s r.frame_rate_fps f n)
]

resolve_video_agrees :
    (c : NegotiatedCapabilities)
    → VideoAgrees c.video_format c.frame_rate_fps
    → resolve_video (request_of c) ≡ ok (c.video_format, c.frame_rate_fps)
unfolding resolve_video
resolve_video_agrees c h = go c.video_format c.frame_rate_fps h
  where
    go :
        (f : Option VideoFormat) (n : Option ℕ)
        → VideoAgrees f n
        → resolve_video (record (request_of c) {
          video_format = value_of_format f;
          frame_rate_fps = as_requested n;
        })
          ≡ ok (f, n)
    go none none k = refl
    go none (some n) k = elim k [ ]
    go (some f) none k = elim k [ ]
    go (some f) (some n) k = resolve_format_agrees f n k

rate_is_supported_iff :
    (z : ℤ)
    → (rate_is_supported z ≡ true)
      ↔ ((n : ℕ) × (z ≡ pos n) × (any (λ rate. eqb n rate) supported_sample_rates_hz ≡ true))
unfolding rate_is_supported
rate_is_supported_iff (pos n) = (λ h. (n, refl, ground arith), λ (m, e, h). ground arith)
rate_is_supported_iff (negsuc n) = (λ h. absurd (ground arith), λ (m, e, h). cc)

locale_is_supported_iff : (l : String) → (locale_is_supported l ≡ true) ↔ (l ≡ "es-PE")
unfolding locale_is_supported
locale_is_supported_iff l = ground (arith, eq_iff "es-PE" l)

negotiate_ok :
    (r : CapabilityRequest) (c : NegotiatedCapabilities)
    → negotiate r ≡ ok c
    → (r ≡ request_of c) × IsSupported c
unfolding negotiate
negotiate_ok r c h = ground (
  arith,
  resolve_codec_ok r.audio_codec c.audio_codec,
  (rate_is_supported_iff r.sample_rate_hz).0,
  (locale_is_supported_iff r.locale).0,
  resolve_video_ok r c.video_format c.frame_rate_fps,
)

negotiate_agrees : (c : NegotiatedCapabilities) → IsSupported c → negotiate (request_of c) ≡ ok c
unfolding negotiate
negotiate_agrees c (rate, locale, video) =
    rw
      (
        resolve_codec-codec_value c.audio_codec,
        (rate_is_supported_iff (pos c.sample_rate_hz)).1 (c.sample_rate_hz, refl, rate),
        (locale_is_supported_iff c.locale).1 locale,
        resolve_video_agrees c video,
      )
      refl

resolve_codec_raises :
    (s : String) (e : Error) → resolve_codec s ≡ raised e → e ≡ unsupported_capability
unfolding resolve_codec
resolve_codec_raises s e h = elim (Option-cases (codec_of s)) [
  | inl n ↦ ground (arith, n)
  | inr (k, n) ↦ ground (arith, n)
]

resolve_video_raises :
    (r : CapabilityRequest) (e : Error) → resolve_video r ≡ raised e → e ≡ unsupported_capability
unfolding resolve_video resolve_format
resolve_video_raises r e h = ground arith

negotiate_raises :
    (r : CapabilityRequest) (e : Error) → negotiate r ≡ raised e → e ≡ unsupported_capability
unfolding negotiate
negotiate_raises r e h =
    ground (arith, resolve_codec_raises r.audio_codec e, resolve_video_raises r e)

-- `negotiate` agrees to `c` exactly when the request spells out `c` and `c` lies within the
-- published sample rates, locale, formats and frame rates; the only error that it raises is
-- `UnsupportedCapability`.
pub negotiate_iff :
    (r : CapabilityRequest)
    → ((c : NegotiatedCapabilities) → (negotiate r ≡ ok c) ↔ ((r ≡ request_of c) × IsSupported c))
      × ((e : Error) → negotiate r ≡ raised e → e ≡ unsupported_capability)
negotiate_iff r =
    (λ c. (negotiate_ok r c, λ h. rw (h.0) (negotiate_agrees c h.1)), negotiate_raises r)
