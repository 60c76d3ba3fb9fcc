-- ===== src/Transcript/Tests.antt =====
-- A short transcript, and the theorems at it.
use oratoria_engine.Prelude.{
  sort, ℕ, ◌≤◌, ◌≡◌, refl, String, List, [], ◌∷◌, map, keep, arith, All, ◌<◌,
}
use oratoria_engine.Prelude.Shuffle.{IsKeyed, IsKeyed-two}
use oratoria_engine.Shared.Errors.{ok}
use oratoria_engine.Transcript.{
  TokenStatus, final, provisional, WordToken, Transcript, is_final, le_token, final_tokens,
  finalized_frontier, finalize_through, with_provisional, latest_end,
}
use oratoria_engine.Transcript.Frozen.{StartsFrom, IsProvisional, with_provisional-frozen}
use oratoria_engine.Transcript.Promotion.{settle, ends_by, finalize_through-ok}
use oratoria_engine.Transcript.Streams.{Op, tail, boundary, run, Extends, IsWellFormed, run-Extends}

abbrev word : String → ℕ → ℕ → TokenStatus → WordToken ℕ
word text a b status = record {
  id = text;
  raw_text = text;
  interval = record { start = record { ms = a }; end = record { ms = b }; tolerance_ms = 250 };
  confidence = 90;
  status = status;
}

abbrev spoken : Transcript ℕ
spoken = record { tokens = word "eh" 0 300 final ∷ word "yo" 350 600 provisional ∷ [] }

abbrev next : List (WordToken ℕ)
next = word "digo" 700 900 provisional ∷ word "yo" 360 640 provisional ∷ []

abbrev decoded : Transcript ℕ
decoded = record {
  tokens =
      word "eh" 0 300 final ∷ word "yo" 360 640 provisional ∷ word "digo" 700 900 provisional ∷ [];
}

accepted : with_provisional spoken next ≡ ok decoded
unfolding with_provisional finalized_frontier final_tokens is_final le_token sort
accepted = refl

in_order : IsWellFormed spoken
unfolding le_token
in_order = (((refl, tt), (tt, tt)), (refl, (refl, tt)))

ahead : All (StartsFrom (finalized_frontier spoken).ms) next
unfolding finalized_frontier final_tokens is_final
ahead = (omega arith, (omega arith, tt))

behind : 200 < (finalized_frontier spoken).ms
unfolding finalized_frontier final_tokens is_final
behind = omega arith

not_back : (finalized_frontier spoken).ms ≤ 650
unfolding finalized_frontier final_tokens is_final
not_back = omega arith

guesses : All IsProvisional next
unfolding is_final
guesses = (refl, (refl, tt))

tie_free : IsKeyed le_token next
unfolding le_token
tie_free = IsKeyed-two le_token refl

abbrev history : List (Op ℕ)
history = tail next ∷ boundary (record { ms = 650 }) ∷ tail next ∷ []

with_provisional-frozen_example : final_tokens decoded ≡ final_tokens spoken
with_provisional-frozen_example =
    with_provisional-frozen spoken next decoded in_order.0 guesses accepted

finalize_through-ok_example :
    (tr : Transcript ℕ) × (finalize_through spoken (record { ms = 650 }) ≡ ok tr)
    × (tr.tokens ≡ map (settle 650) spoken.tokens)
    × ((finalized_frontier tr).ms ≡ latest_end (keep (ends_by 650) spoken.tokens))
    × ((finalized_frontier spoken).ms ≤ (finalized_frontier tr).ms)
    × ((finalized_frontier tr).ms ≤ 650)
finalize_through-ok_example = finalize_through-ok spoken (record { ms = 650 }) in_order.1 not_back

run-Extends_example : IsWellFormed (run spoken history) × Extends spoken (run spoken history)
run-Extends_example =
    run-Extends spoken history in_order
      ((guesses, (refl, (refl, tt))), (tt, ((guesses, (refl, (refl, tt))), tt)))
