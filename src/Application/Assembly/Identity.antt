-- ===== src/Application/Assembly/Identity.antt =====
-- src/evidence_engine/application/services/event_identity.py: an identity that survives a second
-- decoding of the same stretch.
use Prim.Native.String.{◌++◌}
use oratoria_engine.Prelude.{
  ℕ, zero, suc, ◌/◌, ◌%◌, String, ltb, if◌then◌else◌, get_elem?, [], ◌∷◌, none, some,
}
use oratoria_engine.Prelude.Int.{ℤ, pos, negsuc}

abbrev pub position_bucket_ms : ℕ
position_bucket_ms = 100

-- One decimal digit.
digit : ℕ → String
digit d =
    elim (get_elem? {A = String} ("0" ∷ "1" ∷ "2" ∷ "3" ∷ "4" ∷ "5" ∷ "6" ∷ "7" ∷ "8" ∷ "9" ∷ [])
      d) [ none ↦ "" | some text ↦ text ]

-- `str(n)`, where `fuel` bounds the number of digits
decimal_fuel : ℕ → ℕ → String
unfolding digit
decimal_fuel zero n = digit n
decimal_fuel (suc fuel) n =
    let front = decimal_fuel fuel (n / 10) in if ltb n 10 then digit n else front ++ digit (n % 10)

unfoldable pub decimal : ℤ → String
unfolding decimal_fuel
decimal (pos n) = decimal_fuel n n
decimal (negsuc n) = "-" ++ decimal_fuel (suc n) (suc n)

-- `start_ms // POSITION_BUCKET_MS`, which rounds towards minus infinity
unfoldable pub bucket : ℤ → ℤ
bucket (pos n) = pos (n / position_bucket_ms)
bucket (negsuc n) = negsuc (n / position_bucket_ms)

unfoldable pub event_material : String → String → ℤ → String → String
unfolding decimal bucket
event_material run_id event_type start_ms discriminator =
    run_id ++ "|" ++ event_type ++ "|" ++ decimal (bucket start_ms) ++ "|" ++ discriminator

module _ (digest : String → String) where
  unfoldable pub derive_event_id : String → String → ℤ → String → String
  unfolding event_material
  derive_event_id run_id event_type start_ms discriminator =
      "ev_" ++ digest (event_material run_id event_type start_ms discriminator)

  unfoldable pub derive_token_id : String → ℤ → String → String
  unfolding decimal bucket
  derive_token_id run_id start_ms raw_text =
      "tok_" ++ digest (run_id ++ "|" ++ decimal (bucket start_ms) ++ "|" ++ raw_text)
