-- ===== src/Evidence/Document/Tests.antt =====
-- A payload with a ranking below two levels.
use oratoria_engine.Prelude.{String, false, All, ◌≡◌, ◌↔◌, refl, string_eq}
use oratoria_engine.Shared.Errors.{ok, raised, result_violation}
use oratoria_engine.Evidence.Document.{
  Entries, leaf, mapping, sequence, no_entry, entry, no_element, element, is_forbidden,
  assert_carries_no_ranking, forbidden_keys_in,
}
use oratoria_engine.Evidence.Document.Ranking.{keys_of, assert_carries_no_ranking_iff}

abbrev as_is : String → String
as_is s = s

abbrev payload : Entries
payload =
    entry "speech_events"
      (sequence (
        element (mapping (entry "id" (leaf "ev_1") (entry "severity" (leaf "2") no_entry)))
          no_element))
      no_entry

payload_is_refused : assert_carries_no_ranking as_is payload ≡ raised result_violation
unfolding assert_carries_no_ranking forbidden_keys_in is_forbidden
payload_is_refused = refl

assert_carries_no_ranking_iff_example :
    (assert_carries_no_ranking as_is payload ≡ ok tt)
    ↔ All (λ k. is_forbidden as_is k ≡ false) (keys_of (mapping payload))
assert_carries_no_ranking_iff_example = assert_carries_no_ranking_iff as_is payload
