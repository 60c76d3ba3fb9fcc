-- ===== src/Corpus/Matching/Traced.antt =====
-- The pairs that `_optimal_non_crossing` reads back from its table.
use oratoria_engine.Prelude.{
  ℕ, zero, suc, true, false, Bool-cases, Option, Option-cases, some, List, [], ◌∷◌, ◌++◌, ◌≡◌, inl,
  inr, refl, ap, sym, ◌∙◌, arith,
}
use oratoria_engine.Corpus.Scores.{Scores, ScoreLaws}
use oratoria_engine.Corpus.Matching.{best, walk, pairs_here, reversed, optimal_non_crossing}
use oratoria_engine.Corpus.Matching.Optimal.{
  NonCrossing, score, cell-cases, best_is_greatest, nothing, leave_left, leave_right, pair,
}

-- The pairs of a matching, in order.
pub pairs_of :
    {W : Type 0} {weights : ℕ → ℕ → Option W} {i j : ℕ} → NonCrossing weights i j → List (ℕ × ℕ)
pairs_of nothing = []
pairs_of (leave_left s) = pairs_of s
pairs_of (leave_right s) = pairs_of s
pairs_of (pair {i} {j} s w e) = pairs_of s ++ (i, j) ∷ []

module _ (sc : Scores) (laws : ScoreLaws sc) (weights : ℕ → ℕ → Option sc.W) where
  abbrev cell : ℕ → ℕ → sc.W
  cell i j = best sc weights i j

  -- On this table the tolerance takes no two different sums for the same.
  abbrev pub IsSharp : Type 0
  IsSharp =
      (i j : ℕ) (x : sc.W)
      → weights i j ≡ some x
      → sc.near (cell (suc i) (suc j)) (sc.add (cell i j) x) ≡ true
      → cell (suc i) (suc j) ≡ sc.add (cell i j) x

  abbrev Reads : ℕ → ℕ → Type 0
  Reads i j =
      (s : NonCrossing weights i j) × (pairs_of s ≡ reversed (walk sc weights i j))
      × (score sc laws weights s ≡ cell i j)

  -- No pair is left to read at the edge of the table.
  Reads-edge :
      (i j : ℕ)
      → (s : NonCrossing weights i j) × (pairs_of s ≡ []) × (score sc laws weights s ≡ sc.zero)
  unfolding pairs_of score
  Reads-edge zero zero = (nothing, refl, refl)
  Reads-edge zero (suc j) = let (s, p, q) = Reads-edge zero j in (leave_right s, p, q)
  Reads-edge (suc i) j = let (s, p, q) = Reads-edge i j in (leave_left s, p, q)

  differs :
      (i j : ℕ) (x : sc.W)
      → weights i j ≡ some x
      → cell (suc i) (suc j) ≡ sc.add (cell i j) x
      → pairs_here sc weights i j (weights i j) ≡ false
      → ⊥
  differs i j x w e h = ground (
    arith,
    laws.near_refl (sc.add (cell i j) x),
    ap (λ y. sc.near y (sc.add (cell i j) x)) e,
    ap (pairs_here sc weights i j) w,
  )

  -- Where no pair is read and the cell above differs, the cell is the one to the left.
  only_left :
      (i j : ℕ)
      → pairs_here sc weights i j (weights i j) ≡ false
      → sc.same (cell (suc i) (suc j)) (cell i (suc j)) ≡ false
      → cell (suc i) (suc j) ≡ cell (suc i) j
  only_left i j h k = elim (cell-cases sc laws weights i j) [
    | inl e ↦ absurd (ground (arith, e, laws.same_refl (cell i (suc j))))
    | inr (inl e) ↦ e
    | inr (inr (x, w, e)) ↦ absurd (differs i j x w e h)
  ]

  Reads-top : (j : ℕ) → Reads 0 j
  unfolding walk best
  Reads-top j = Reads-edge 0 j

  Reads-side : (i : ℕ) → Reads (suc i) 0
  unfolding walk best
  Reads-side i = Reads-edge (suc i) 0

  -- The two moves that read no pair.
  Reads-skip :
      (i j : ℕ)
      → pairs_here sc weights i j (weights i j) ≡ false
      → Reads i (suc j)
      → Reads (suc i) j
      → Reads (suc i) (suc j)
  unfolding walk pairs_of score
  Reads-skip i j h (s, p, q) (t, u, v) =
      elim (Bool-cases (sc.same (cell (suc i) (suc j)) (cell i (suc j)))) [
        | inl e ↦ (leave_left s, rw (h, e) p, q ∙ sym (laws.same_sound _ _ e))
        | inr e ↦ (leave_right t, rw (h, e) u, v ∙ sym (only_left i j h e))
      ]

  walk-Reads : IsSharp → (i j : ℕ) → Reads i j
  unfolding walk pairs_of score
  walk-Reads sharp zero j = Reads-top j
  walk-Reads sharp (suc i) zero = Reads-side i
  walk-Reads sharp (suc i) (suc j) =
      let up = walk-Reads sharp i (suc j) in
      let back = walk-Reads sharp (suc i) j in
      let (s, p, q) = walk-Reads sharp i j in
      elim (Option-cases (weights i j)) [
        | inl w ↦ Reads-skip i j (rw w refl) up back
        | inr (x, w) ↦ elim (Bool-cases (sc.near (cell (suc i) (suc j)) (sc.add (cell i j) x))) [
          | inl h ↦ (
            pair s x w,
            rw (w, h) (ap (λ l. l ++ (i, j) ∷ []) p),
            ap (λ y. sc.add y x) q ∙ sym (sharp i j x w h),
          )
          | inr h ↦ Reads-skip i j (rw (w, h) refl) up back
        ]
      ]

  -- Over the same scores, and where the tolerance of the traceback takes no two different sums of this table
  -- for the same: the pairs that the code returns are those of a non-crossing matching, and no
  -- non-crossing matching has a greater score than it.
  pub traced_is_greatest :
      IsSharp
      → (n_left n_right : ℕ)
      → (t : NonCrossing weights n_left n_right) × (pairs_of t
          ≡ optimal_non_crossing sc weights n_left n_right)
        × ((s : NonCrossing weights n_left n_right)
            → sc.le (score sc laws weights s) (score sc laws weights t) ≡ true)
  unfolding optimal_non_crossing
  traced_is_greatest sharp n_left n_right =
      let (t, p, q) = walk-Reads sharp n_left n_right in
      (t, p, λ s. rw q ((best_is_greatest sc laws weights n_left n_right).0 s))
