-- ===== src/Corpus/Matching.antt =====
-- src/corpus/agreement/matching.py: which annotation of one annotator answers to which of the other.
-- A cell of the table `best` is written once, from cells above and to the left of it, so the table is
-- a function of the cell; `weights` is a function into `Option` for the dict.
pub mod Optimal
pub mod Traced
pub mod Counting
pub mod Partition
mod Tests
use oratoria_engine.Prelude.{
  ℕ, zero, suc, ◌+◌, ◌*◌, String, Bool, true, false, not, ◌&&◌, ◌||◌, Option, none, some, List, [],
  ◌∷◌, ◌++◌, ltb, leb, eqb, if◌then◌else◌, sort, leb_text, contains, nat_eq, length, get_elem?, map,
}
use oratoria_engine.Shared.Timeline.{abs_diff}
use oratoria_engine.Shared.Taxonomy.{speech_value}
use oratoria_engine.Corpus.Scores.{Scores}
use oratoria_engine.Corpus.Records.{DisfluencyAnnotation, Interval, iou}

pub data MatchCriterion : Type 0 where
  iou_criterion midpoint_tolerance : MatchCriterion

-- `pairs.reverse()`
abbrev pub reversed : List (ℕ × ℕ) → List (ℕ × ℕ)
reversed [] = []
reversed (p ∷ ps) = reversed ps ++ p ∷ []

abbrev pub firsts : List (ℕ × ℕ) → List ℕ
firsts ps = map (λ p. p.0) ps

abbrev pub seconds : List (ℕ × ℕ) → List ℕ
seconds ps = map (λ p. p.1) ps

module _ (sc : Scores) where
  -- The larger of the two cells that drop an annotation.
  abbrev pub keep_best : sc.W → sc.W → sc.W
  keep_best skip_left skip_right = if sc.le skip_right skip_left then skip_left else skip_right

  -- `if weight is not None: paired = ...; if paired > candidate: candidate = paired`
  abbrev pub improve : sc.W → sc.W → Option sc.W → sc.W
  improve candidate diagonal none = candidate
  improve candidate diagonal (some weight) =
      if sc.lt candidate (sc.add diagonal weight) then sc.add diagonal weight else candidate

-- `_optimal_non_crossing` over the dict `weights`
module _ (sc : Scores) (weights : ℕ → ℕ → Option sc.W) where
  unfoldable pub best : ℕ → ℕ → sc.W
  best zero j = sc.zero
  best (suc i) zero = sc.zero
  best (suc i) (suc j) =
      improve sc (keep_best sc (best i (suc j)) (best (suc i) j)) (best i j) (weights i j)

  -- `weight is not None and abs(best[i][j] - (best[i - 1][j - 1] + weight)) < 1e-12`
  abbrev pub pairs_here : ℕ → ℕ → Option sc.W → Bool
  pairs_here i j none = false
  pairs_here i j (some weight) = sc.near (best (suc i) (suc j)) (sc.add (best i j) weight)

  -- The pairs that the `while` loop appends from the cell (i, j) on, in that order.
  unfoldable pub walk : ℕ → ℕ → List (ℕ × ℕ)
  walk zero j = []
  walk (suc i) zero = []
  walk (suc i) (suc j) =
      let diagonal = walk i j in
      let up = walk i (suc j) in
      let back = walk (suc i) j in
      if pairs_here i j (weights i j)
      then (i, j) ∷ diagonal
      else if sc.same (best (suc i) (suc j)) (best i (suc j))
      then up
      else back

  unfoldable pub optimal_non_crossing : ℕ → ℕ → List (ℕ × ℕ)
  unfolding walk
  optimal_non_crossing n_left n_right = reversed (walk n_left n_right)

pub record MatchedPair (W : Type 0) : Type 0 where
  pub left : DisfluencyAnnotation W
  pub right : DisfluencyAnnotation W
  pub overlap : W

pub record Matching (W : Type 0) : Type 0 where
  pub pairs : List (MatchedPair W)
  pub left_only : List (DisfluencyAnnotation W)
  pub right_only : List (DisfluencyAnnotation W)
  pub criterion : MatchCriterion
  pub threshold : W

module _ {W : Type 0} where
  unfoldable pub start_error_ms : MatchedPair W → ℕ
  start_error_ms p = abs_diff p.left.interval.start_ms p.right.interval.start_ms

  unfoldable pub end_error_ms : MatchedPair W → ℕ
  end_error_ms p = abs_diff p.left.interval.end_ms p.right.interval.end_ms

  -- `(start_ms, end_ms, event_type.value)` compared as a tuple
  unfoldable pub le_annotation : DisfluencyAnnotation W → DisfluencyAnnotation W → Bool
  le_annotation a b =
      ltb a.interval.start_ms b.interval.start_ms
      || (eqb a.interval.start_ms b.interval.start_ms
          && (ltb a.interval.end_ms b.interval.end_ms
              || (eqb a.interval.end_ms b.interval.end_ms
                  && leb_text (speech_value a.event_type) (speech_value b.event_type))))

  unfoldable pub ordered : List (DisfluencyAnnotation W) → List (DisfluencyAnnotation W)
  unfolding le_annotation sort
  ordered annotations = sort le_annotation annotations

  -- `tuple(a for i, a in enumerate(xs) if i not in matched)`, counting from `i`
  unfoldable pub unmatched :
      ℕ → List ℕ → List (DisfluencyAnnotation W) → List (DisfluencyAnnotation W)
  unmatched i matched [] = []
  unmatched i matched (a ∷ rest) =
      let later = unmatched (suc i) matched rest in if contains i matched then later else a ∷ later

module _ (sc : Scores) where
  -- The midpoints are halves, so both sides of their comparison are doubled.
  unfoldable pub weight_of : MatchCriterion → sc.W → ℕ → Interval → Interval → Option sc.W
  unfolding iou
  weight_of iou_criterion iou_threshold tolerance_ms a b =
      let score = iou sc a b in if sc.le iou_threshold score then some score else none
  weight_of midpoint_tolerance iou_threshold tolerance_ms a b =
      if leb (abs_diff (a.start_ms + a.end_ms) (b.start_ms + b.end_ms)) (2 * tolerance_ms)
      then some (iou sc a b)
      else none

  abbrev weight_between :
      MatchCriterion
      → sc.W
      → ℕ
      → Option (DisfluencyAnnotation sc.W)
      → Option (DisfluencyAnnotation sc.W)
      → Option sc.W
  weight_between criterion iou_threshold tolerance_ms (some a) (some b) =
      weight_of criterion iou_threshold tolerance_ms a.interval b.interval
  weight_between criterion iou_threshold tolerance_ms _ _ = none

  -- `_weights(left, right, ...).get((i, j))`
  unfoldable pub weights_of :
      MatchCriterion
      → sc.W
      → ℕ
      → List (DisfluencyAnnotation sc.W)
      → List (DisfluencyAnnotation sc.W)
      → ℕ
      → ℕ
      → Option sc.W
  weights_of criterion iou_threshold tolerance_ms left right i j =
      weight_between criterion iou_threshold tolerance_ms (get_elem? left i) (get_elem? right j)

  -- The pairs of the indices; an index out of range does not come out of `_optimal_non_crossing`.
  abbrev pair_of :
      Option (DisfluencyAnnotation sc.W)
      → Option (DisfluencyAnnotation sc.W)
      → List (MatchedPair sc.W)
      → List (MatchedPair sc.W)
  pair_of (some a) (some b) rest =
      record { left = a; right = b; overlap = iou sc a.interval b.interval } ∷ rest
  pair_of _ _ rest = rest

  unfoldable pub pairs_at :
      List (DisfluencyAnnotation sc.W)
      → List (DisfluencyAnnotation sc.W)
      → List (ℕ × ℕ)
      → List (MatchedPair sc.W)
  pairs_at left right [] = []
  pairs_at left right ((i, j) ∷ rest) =
      let later = pairs_at left right rest in pair_of (get_elem? left i) (get_elem? right j) later

  abbrev threshold_of : MatchCriterion → sc.W → ℕ → sc.W
  threshold_of iou_criterion iou_threshold tolerance_ms = iou_threshold
  threshold_of midpoint_tolerance iou_threshold tolerance_ms = sc.of_int tolerance_ms

  -- `match`, from the ordered annotations on
  unfoldable pub match_ordered :
      MatchCriterion
      → sc.W
      → ℕ
      → List (DisfluencyAnnotation sc.W)
      → List (DisfluencyAnnotation sc.W)
      → Matching sc.W
  unfolding optimal_non_crossing weights_of pairs_at unmatched
  match_ordered criterion iou_threshold tolerance_ms left right =
      let indices =
        optimal_non_crossing sc (weights_of criterion iou_threshold tolerance_ms left right)
          (length left) (length right) in
      record {
        pairs = pairs_at left right indices;
        left_only = unmatched 0 (firsts indices) left;
        right_only = unmatched 0 (seconds indices) right;
        criterion = criterion;
        threshold = threshold_of criterion iou_threshold tolerance_ms;
      }

  unfoldable pub match_annotations :
      MatchCriterion
      → sc.W
      → ℕ
      → List (DisfluencyAnnotation sc.W)
      → List (DisfluencyAnnotation sc.W)
      → Matching sc.W
  unfolding ordered match_ordered
  match_annotations criterion iou_threshold tolerance_ms left right =
      match_ordered criterion iou_threshold tolerance_ms (ordered left) (ordered right)

  unfoldable pub positive_specific_agreement : Matching sc.W → sc.W
  positive_specific_agreement m =
      let matched = length m.pairs in
      let alone = length m.left_only + length m.right_only in
      if eqb matched 0 && eqb alone 0 then sc.one else sc.ratio (2 * matched) (2 * matched + alone)
