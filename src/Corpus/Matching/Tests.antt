-- ===== src/Corpus/Matching/Tests.antt =====
-- Runs of the theorems on two small files of annotations, and a run on which swapping the annotators
-- changes the number of pairs.
use oratoria_engine.Prelude.{
  ℕ, ◌+◌, ◌*◌, ◌/◌, true, Option, none, some, List, [], ◌∷◌, All, ◌≡◌, refl, arith, ltb, leb, eqb,
  length, String,
}
use oratoria_engine.Shared.Taxonomy.{cut_off}
use oratoria_engine.Corpus.Scores.{Scores, ScoreLaws}
use oratoria_engine.Corpus.Records.{DisfluencyAnnotation, union_ms}
use oratoria_engine.Corpus.Matching.{
  match_annotations, optimal_non_crossing, midpoint_tolerance, best, weight_of,
}
use oratoria_engine.Corpus.Matching.Optimal.{NonCrossing, score, best_is_greatest}
use oratoria_engine.Corpus.Matching.Traced.{pairs_of, traced_is_greatest}
use oratoria_engine.Corpus.Matching.Partition.{MeetsCriterion, match_annotations-Partition}

-- Scores as thousandths.
abbrev milli : Scores
milli = record {
  W = ℕ;
  zero = 0;
  one = 1000;
  add = λ x y. x + y;
  le = leb;
  lt = ltb;
  same = eqb;
  near = eqb;
  ratio = λ a b. 1000 * a / b;
  of_int = λ n. 1000 * n;
}

milli_laws : ScoreLaws milli
milli_laws = record {
  le_refl = λ x. ground arith;
  le_trans = λ x y z h k. ground arith;
  lt_or_le = λ x y. ground arith;
  lt_le = λ x y h. ground arith;
  lt_not_le = λ x y h. ground arith;
  add_mono = λ x y w h. ground arith;
  same_sound = λ x y h. ground arith;
  same_refl = λ x. ground arith;
  near_refl = λ x. ground arith;
}

abbrev some_weights : ℕ → ℕ → Option ℕ
some_weights i j = some (600 + i + j)

best_is_greatest_example :
    ((s : NonCrossing some_weights 2 3)
      → leb (score milli milli_laws some_weights s) (best milli some_weights 2 3) ≡ true)
    × ((s : NonCrossing some_weights 2 3) × (score milli milli_laws some_weights s
          ≡ best milli some_weights 2 3))
best_is_greatest_example = best_is_greatest milli milli_laws some_weights 2 3

traced_is_greatest_example :
    (t : NonCrossing some_weights 2 3) × (pairs_of t ≡ optimal_non_crossing milli some_weights 2 3)
    × ((s : NonCrossing some_weights 2 3)
        → leb (score milli milli_laws some_weights s) (score milli milli_laws some_weights t)
          ≡ true)
traced_is_greatest_example =
    traced_is_greatest milli milli_laws some_weights (λ i j x w h. ground arith) 2 3

abbrev mark : ℕ → ℕ → String → DisfluencyAnnotation ℕ
mark start_ms end_ms annotator_id = record {
  event_type = cut_off;
  interval = record { start_ms = start_ms; end_ms = end_ms };
  annotator_id = annotator_id;
  raw_text = "";
  context_role = none;
  annotator_confidence = 1000;
  note = "";
}

abbrev first_file : List (DisfluencyAnnotation ℕ)
first_file = mark 1000 1100 "a" ∷ mark 5000 5100 "a" ∷ []

abbrev second_file : List (DisfluencyAnnotation ℕ)
second_file = mark 0 100 "b" ∷ mark 1100 1200 "b" ∷ []

match_annotations-Partition_example :
    let m = match_annotations milli midpoint_tolerance 500 250 first_file second_file in
    (length m.pairs + length m.left_only ≡ length first_file)
    × (length m.pairs + length m.right_only ≡ length second_file)
    × All (MeetsCriterion milli midpoint_tolerance 500 250) m.pairs
match_annotations-Partition_example =
    match_annotations-Partition milli midpoint_tolerance 500 250 first_file second_file

abbrev found : List (DisfluencyAnnotation ℕ) → List (DisfluencyAnnotation ℕ) → ℕ
found left right = length (match_annotations milli midpoint_tolerance 500 250 left right).pairs

swapping_changes_pairs : (found first_file second_file ≡ 1) × (found second_file first_file ≡ 0)
unfolding match_annotations weight_of best union_ms
swapping_changes_pairs = (refl, refl)
