-- ===== src/Corpus/Matching/Partition.antt =====
-- Each annotation is in one pair or alone, and each pair meets the criterion.
use oratoria_engine.Prelude.{
  ℕ, zero, suc, ◌+◌, ◌<◌, ◌≤◌, true, Bool-cases, Option, none, some, List, [], ◌∷◌, All, All-append,
  ◌≡◌, inl, inr, refl, ap, sym, ◌∙◌, arith, length, length-sort, get_elem?,
}
use oratoria_engine.Corpus.Scores.{Scores}
use oratoria_engine.Corpus.Records.{DisfluencyAnnotation}
use oratoria_engine.Corpus.Matching.{
  MatchCriterion, MatchedPair, best, walk, pairs_here, reversed, optimal_non_crossing, weight_of,
  weights_of, pairs_at, firsts, seconds, match_ordered, match_annotations, ordered,
}
use oratoria_engine.Corpus.Matching.Counting.{
  Falls, tally, tally-Falls, tally-reversed, length-map, length-reversed, length-unmatched,
}

module _ (sc : Scores) (weights : ℕ → ℕ → Option sc.W) where
  -- Pairs that the weights admit, below `i` and `j` and falling in both.
  abbrev Descends : ℕ → ℕ → List (ℕ × ℕ) → Type 0
  Descends i j [] = Unit
  Descends i j ((a, b) ∷ ps) =
      (a < i) × (b < j) × ((x : sc.W) × (weights a b ≡ some x)) × Descends a b ps

  Descends-mono :
      (i j m n : ℕ) (ps : List (ℕ × ℕ)) → i ≤ m → j ≤ n → Descends i j ps → Descends m n ps
  Descends-mono i j m n [] h k d = tt
  Descends-mono i j m n ((a, b) ∷ ps) h k (p, q, r, d) = (omega arith, omega arith, r, d)

  pairs_here-some :
      (i j : ℕ) (w : Option sc.W) → pairs_here sc weights i j w ≡ true → (x : sc.W) × (w ≡ some x)
  pairs_here-some i j none h = absurd (ground arith)
  pairs_here-some i j (some x) h = (x, refl)

  walk-Descends : (i j : ℕ) → Descends i j (walk sc weights i j)
  unfolding walk
  walk-Descends zero j = tt
  walk-Descends (suc i) zero = tt
  walk-Descends (suc i) (suc j) =
      let d = walk-Descends i j in
      let u = walk-Descends i (suc j) in
      let b = walk-Descends (suc i) j in
      elim (Bool-cases (pairs_here sc weights i j (weights i j))) [
        | inl h ↦ rw h (omega arith, omega arith, pairs_here-some i j (weights i j) h, d)
        | inr h ↦
            elim (Bool-cases
              (sc.same (best sc weights (suc i) (suc j)) (best sc weights i (suc j)))) [
                | inl e ↦ rw (h, e) (Descends-mono _ _ _ _ _ (omega arith) (omega arith) u)
                | inr e ↦ rw (h, e) (Descends-mono _ _ _ _ _ (omega arith) (omega arith) b)
              ]
      ]

  firsts-Falls : (i j : ℕ) (ps : List (ℕ × ℕ)) → Descends i j ps → Falls i (firsts ps)
  firsts-Falls i j [] d = tt
  firsts-Falls i j ((a, b) ∷ ps) (p, q, r, d) = (p, firsts-Falls a b ps d)

  seconds-Falls : (i j : ℕ) (ps : List (ℕ × ℕ)) → Descends i j ps → Falls j (seconds ps)
  seconds-Falls i j [] d = tt
  seconds-Falls i j ((a, b) ∷ ps) (p, q, r, d) = (q, seconds-Falls a b ps d)

  -- Each index is in range and the weights admit each pair.
  abbrev Admitted : ℕ → ℕ → List (ℕ × ℕ) → Type 0
  Admitted m n ps = All (λ p. (p.0 < m) × (p.1 < n) × ((x : sc.W) × (weights p.0 p.1 ≡ some x))) ps

  Descends-Admitted :
      (i j m n : ℕ) (ps : List (ℕ × ℕ)) → i ≤ m → j ≤ n → Descends i j ps → Admitted m n ps
  Descends-Admitted i j m n [] h k d = tt
  Descends-Admitted i j m n ((a, b) ∷ ps) h k (p, q, r, d) =
      ((omega arith, omega arith, r), Descends-Admitted a b m n ps (omega arith) (omega arith) d)

  Admitted-reversed : (m n : ℕ) (ps : List (ℕ × ℕ)) → Admitted m n ps → Admitted m n (reversed ps)
  Admitted-reversed m n [] d = tt
  Admitted-reversed m n (p ∷ ps) (h, d) =
      All-append _ (reversed ps) (p ∷ []) (Admitted-reversed m n ps d) (h, tt)

  optimal-Admitted : (m n : ℕ) → Admitted m n (optimal_non_crossing sc weights m n)
  unfolding optimal_non_crossing
  optimal-Admitted m n =
      Admitted-reversed m n _
        (Descends-Admitted m n m n _ (omega arith) (omega arith) (walk-Descends m n))

  -- The indices of one side are as many as the pairs.
  tally-optimal :
      (m n : ℕ)
      → (tally (firsts (optimal_non_crossing sc weights m n)) 0 m
          ≡ length (optimal_non_crossing sc weights m n))
        × (tally (seconds (optimal_non_crossing sc weights m n)) 0 n
            ≡ length (optimal_non_crossing sc weights m n))
  unfolding optimal_non_crossing
  tally-optimal m n =
      let ps = walk sc weights m n in
      let d = walk-Descends m n in
      (
        tally-reversed (λ p. p.0) ps 0 m
            ∙ tally-Falls m (firsts ps) (firsts-Falls m n ps d)
            ∙ length-map (λ p. p.0) ps
            ∙ sym (length-reversed ps),
        tally-reversed (λ p. p.1) ps 0 n
            ∙ tally-Falls n (seconds ps) (seconds-Falls m n ps d)
            ∙ length-map (λ p. p.1) ps
            ∙ sym (length-reversed ps),
      )

get_elem?-some :
    {A : Type 0} (xs : List A) (i : ℕ) → i < length xs → (a : A) × (get_elem? xs i ≡ some a)
get_elem?-some [] i h = absurd (omega arith)
get_elem?-some (x ∷ xs) zero h = (x, refl)
get_elem?-some (x ∷ xs) (suc i) h = get_elem?-some xs i (omega arith)

module _ (sc : Scores) (criterion : MatchCriterion) (iou_threshold : sc.W) (tolerance_ms : ℕ) where
  abbrev pub MeetsCriterion : MatchedPair sc.W → Type 0
  MeetsCriterion p =
      (x : sc.W) × (weight_of sc criterion iou_threshold tolerance_ms p.left.interval
          p.right.interval
        ≡ some x)

  module _ (left right : List (DisfluencyAnnotation sc.W)) where
    abbrev weights : ℕ → ℕ → Option sc.W
    weights = weights_of sc criterion iou_threshold tolerance_ms left right

    weights_at :
        (i j : ℕ) (a b : DisfluencyAnnotation sc.W)
        → get_elem? left i ≡ some a
        → get_elem? right j ≡ some b
        → weights i j ≡ weight_of sc criterion iou_threshold tolerance_ms a.interval b.interval
    unfolding weights_of
    weights_at i j a b e f = rw (e, f) refl

    pairs_at-lem :
        (ps : List (ℕ × ℕ))
        → Admitted sc weights (length left) (length right) ps
        → (length (pairs_at sc left right ps) ≡ length ps)
          × All MeetsCriterion (pairs_at sc left right ps)
    unfolding pairs_at weights_of
    pairs_at-lem [] d = (refl, tt)
    pairs_at-lem ((i, j) ∷ ps) ((h, k, (x, w)), d) =
        let (a, e) = get_elem?-some left i h in
        let (b, f) = get_elem?-some right j k in
        let (p, q) = pairs_at-lem ps d in
        rw (e, f) (ap suc p, ((x, sym (weights_at i j a b e f) ∙ w), q))

    match_ordered-lem :
        let m = match_ordered sc criterion iou_threshold tolerance_ms left right in
        (length m.pairs + length m.left_only ≡ length left)
        × (length m.pairs + length m.right_only ≡ length right)
        × All MeetsCriterion m.pairs
    unfolding match_ordered
    match_ordered-lem =
        let ps = optimal_non_crossing sc weights (length left) (length right) in
        let (p, q) = pairs_at-lem ps (optimal-Admitted sc weights (length left) (length right)) in
        let (c, d) = tally-optimal sc weights (length left) (length right) in
        (
          omega (arith, p, c, length-unmatched 0 (firsts ps) left),
          omega (arith, p, d, length-unmatched 0 (seconds ps) right),
          q,
        )

  -- On each side the pairs and the lone ones together are as many as the annotations given,
  -- and each pair has a weight under the criterion.
  pub match_annotations-Partition :
      (left right : List (DisfluencyAnnotation sc.W))
      → let m = match_annotations sc criterion iou_threshold tolerance_ms left right in
        (length m.pairs + length m.left_only ≡ length left)
        × (length m.pairs + length m.right_only ≡ length right)
        × All MeetsCriterion m.pairs
  unfolding match_annotations ordered
  match_annotations-Partition left right =
      let (a, b, c) = match_ordered-lem (ordered left) (ordered right) in
      (a ∙ length-sort _ left, b ∙ length-sort _ right, c)
