-- ===== src/Corpus/Matching/Optimal.antt =====
-- The table of `_optimal_non_crossing` holds the greatest score of a non-crossing matching.
use oratoria_engine.Prelude.{
  ℕ, zero, suc, true, Bool-cases, Option, Option-cases, none, some, ◌≡◌, ◌⊎◌, inl, inr, refl, ap,
  sym, ◌∙◌, arith,
}
use oratoria_engine.Corpus.Scores.{Scores, ScoreLaws}
use oratoria_engine.Corpus.Matching.{best, keep_best, improve}

-- A non-crossing matching of the first `i` annotations of the left with the first `j` of the right,
-- from the left on: each step leaves the next one of a side alone, or pairs the next two, which
-- `weights` must admit.
pub data NonCrossing {W : Type 0} (weights : ℕ → ℕ → Option W) : ℕ → ℕ → Type 0 where
  nothing : NonCrossing weights 0 0
  leave_left : {i j : ℕ} → NonCrossing weights i j → NonCrossing weights (suc i) j
  leave_right : {i j : ℕ} → NonCrossing weights i j → NonCrossing weights i (suc j)
  pair :
      {i j : ℕ}
      → NonCrossing weights i j
      → (weight : W) → weights i j ≡ some weight
      → NonCrossing weights (suc i) (suc j)

module _ (sc : Scores) (laws : ScoreLaws sc) (weights : ℕ → ℕ → Option sc.W) where
  -- The sum of the weights of the pairs, from the left.
  unfoldable pub score : {i j : ℕ} → NonCrossing weights i j → sc.W
  score nothing = sc.zero
  score (leave_left s) = score s
  score (leave_right s) = score s
  score (pair s weight e) = sc.add (score s) weight

  abbrev keeps : ℕ → ℕ → sc.W
  keeps i j = keep_best sc (best sc weights i (suc j)) (best sc weights (suc i) j)

  keep_best-above :
      (a b : sc.W) → (sc.le a (keep_best sc a b) ≡ true) × (sc.le b (keep_best sc a b) ≡ true)
  keep_best-above a b = elim (Bool-cases (sc.le b a)) [
    | inl h ↦ rw h (laws.le_refl a, h)
    | inr h ↦ ground (arith, laws.lt_or_le a b, laws.lt_le a b, laws.le_refl b)
  ]

  improve-above :
      (c d : sc.W) (w : Option sc.W)
      → (sc.le c (improve sc c d w) ≡ true)
        × ((x : sc.W) → w ≡ some x → sc.le (sc.add d x) (improve sc c d w) ≡ true)
  improve-above c d none = (laws.le_refl c, λ x e. absurd (ground arith))
  improve-above c d (some y) = elim (Bool-cases (sc.lt c (sc.add d y))) [
    | inl h ↦ (
      rw h (laws.lt_le c (sc.add d y) h),
      λ x e. rw h (ground (arith, laws.le_refl (sc.add d y))),
    )
    | inr h ↦ (rw h (laws.le_refl c), λ x e. rw h (ground (arith, laws.lt_or_le c (sc.add d y))))
  ]

  abbrev cell : ℕ → ℕ → sc.W
  cell i j = best sc weights i j

  cell-above :
      (i j : ℕ)
      → (sc.le (cell i (suc j)) (cell (suc i) (suc j)) ≡ true)
        × (sc.le (cell (suc i) j) (cell (suc i) (suc j)) ≡ true)
        × ((x : sc.W)
            → weights i j ≡ some x
            → sc.le (sc.add (cell i j) x) (cell (suc i) (suc j)) ≡ true)
  unfolding best
  cell-above i j =
      let (a, b) = keep_best-above (cell i (suc j)) (cell (suc i) j) in
      let (c, d) = improve-above (keeps i j) (cell i j) (weights i j) in
      (laws.le_trans _ _ _ a c, laws.le_trans _ _ _ b c, d)

  edge : (i : ℕ) → cell i 0 ≡ sc.zero
  unfolding best
  edge zero = refl
  edge (suc i) = refl

  score-le-best : {i j : ℕ} (s : NonCrossing weights i j) → sc.le (score s) (cell i j) ≡ true
  unfolding score best
  score-le-best nothing = laws.le_refl sc.zero
  score-le-best (leave_left {i} {j = zero} s) = ground (arith, score-le-best s, edge i)
  score-le-best (leave_left {i} {j = suc j} s) =
      laws.le_trans _ _ _ (score-le-best s) (cell-above i j).0
  score-le-best (leave_right {i = zero} s) = score-le-best s
  score-le-best (leave_right {i = suc i} {j} s) =
      laws.le_trans _ _ _ (score-le-best s) (cell-above i j).1
  score-le-best (pair {i} {j} s x e) =
      laws.le_trans _ _ _ (laws.add_mono _ _ x (score-le-best s)) ((cell-above i j).2 x e)

  abbrev Attained : ℕ → ℕ → sc.W → Type 0
  Attained i j x = (s : NonCrossing weights i j) × (score s ≡ x)

  leave_all : (i j : ℕ) → Attained i j sc.zero
  unfolding score
  leave_all zero zero = (nothing, refl)
  leave_all zero (suc j) = let (s, e) = leave_all zero j in (leave_right s, e)
  leave_all (suc i) j = let (s, e) = leave_all i j in (leave_left s, e)

  -- What a cell can be: the one above, the one to the left, or the diagonal with a pair.
  pub cell-cases :
      (i j : ℕ)
      → (cell (suc i) (suc j) ≡ cell i (suc j))
        ⊎ (cell (suc i) (suc j) ≡ cell (suc i) j)
        ⊎ ((x : sc.W) × (weights i j ≡ some x) × (cell (suc i) (suc j) ≡ sc.add (cell i j) x))
  unfolding best
  cell-cases i j = elim (Option-cases (weights i j)) [
    | inl e ↦ rw e (ground arith)
    | inr (x, e) ↦ elim (Bool-cases (sc.lt (keeps i j) (sc.add (cell i j) x))) [
      | inl h ↦ inr (inr (x, e, rw (e, h) refl))
      | inr h ↦ rw (e, h) (ground arith)
    ]
  ]

  best-Attained : (i j : ℕ) → Attained i j (cell i j)
  unfolding score best
  best-Attained zero j = leave_all zero j
  best-Attained (suc i) zero = leave_all (suc i) zero
  best-Attained (suc i) (suc j) =
      let (a, p) = best-Attained i (suc j) in
      let (b, q) = best-Attained (suc i) j in
      let (c, r) = best-Attained i j in
      elim (cell-cases i j) [
        | inl e ↦ (leave_left a, p ∙ sym e)
        | inr (inl e) ↦ (leave_right b, q ∙ sym e)
        | inr (inr (x, w, e)) ↦ (pair c x w, ap (λ y. sc.add y x) r ∙ sym e)
      ]

  -- Over scores that are ordered and whose addition is monotone, no non-crossing matching of the
  -- first `i` and the first `j` annotations has a greater score than the cell `best[i][j]`, and one of
  -- them has that score.
  pub best_is_greatest :
      (i j : ℕ)
      → ((s : NonCrossing weights i j) → sc.le (score s) (best sc weights i j) ≡ true)
        × ((s : NonCrossing weights i j) × (score s ≡ best sc weights i j))
  best_is_greatest i j = (λ s. score-le-best s, best-Attained i j)
