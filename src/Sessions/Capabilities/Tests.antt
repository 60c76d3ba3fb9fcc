-- ===== src/Sessions/Capabilities/Tests.antt =====
-- A request that names a codec, and the theorem at it.
use oratoria_engine.Prelude.{◌≡◌, ◌↔◌, none}
use oratoria_engine.Prelude.Int.{pos}
use oratoria_engine.Shared.Errors.{Error, ok, raised, unsupported_capability}
use oratoria_engine.Sessions.Capabilities.{CapabilityRequest, NegotiatedCapabilities, negotiate}
use oratoria_engine.Sessions.Capabilities.Agreement.{request_of, IsSupported, negotiate_iff}

abbrev request : CapabilityRequest
request = record {
  audio_codec = "opus";
  sample_rate_hz = pos 16000;
  locale = "es-PE";
  video_format = none;
  frame_rate_fps = none;
}

negotiate_iff_example :
    ((c : NegotiatedCapabilities)
      → (negotiate request ≡ ok c) ↔ ((request ≡ request_of c) × IsSupported c))
    × ((e : Error) → negotiate request ≡ raised e → e ≡ unsupported_capability)
negotiate_iff_example = negotiate_iff request
