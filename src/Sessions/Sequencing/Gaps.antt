-- ===== src/Sessions/Sequencing/Gaps.antt =====
-- What `_collapse` computes: the gaps stand for the missing numbers, each gap a whole run.
use oratoria_engine.Prelude.{
  ℕ, zero, suc, ◌+◌, ◌-◌, ◌≤◌, ◌<◌, ◌≡◌, refl, ap, List, [], ◌∷◌, ◌++◌, map, arith, eqb, nat_eq,
  length, length-append, Bool-cases, inl, inr, ◌∙◌,
}
use oratoria_engine.Sessions.Sequencing.{SequenceGap, count, collapse, collapse_from, sum}

-- `n` numbers from `a` on
abbrev pub run_from : ℕ → ℕ → List ℕ
run_from a zero = []
run_from a (suc n) = a ∷ run_from (suc a) n

-- the sequence numbers that a list of gaps stands for
abbrev pub numbers : List SequenceGap → List ℕ
numbers [] = []
numbers (g ∷ gs) = run_from g.first_missing (count g) ++ numbers gs

abbrev pub Ascending : List ℕ → Type 0
Ascending [] = Unit
Ascending (n ∷ []) = Unit
Ascending (n ∷ m ∷ l) = (n < m) × Ascending (m ∷ l)

-- Two gaps in a row have a number between them, and no gap is inverted: each is a whole run.
abbrev pub AreRuns : List SequenceGap → Type 0
AreRuns [] = Unit
AreRuns (g ∷ []) = g.first_missing ≤ g.last_missing
AreRuns (g ∷ h ∷ gs) =
    (g.first_missing ≤ g.last_missing) × (g.last_missing + 1 < h.first_missing) × AreRuns (h ∷ gs)

run_from-snoc : (a n : ℕ) (l : List ℕ) → run_from a (suc n) ++ l ≡ run_from a n ++ (a + n) ∷ l
run_from-snoc a zero l = ap (λ k. k ∷ l) (omega arith)
run_from-snoc a (suc n) l =
    ap (◌∷◌ a) (run_from-snoc (suc a) n l) ∙ ap (λ k. a ∷ run_from (suc a) n ++ k ∷ l) (omega arith)

-- a run that goes up to its number `m`, and one number more
run_from-next :
    (a m n : ℕ) (l : List ℕ)
    → a ≤ m
    → n ≡ suc m
    → run_from a (suc n - a) ++ l ≡ run_from a (suc m - a) ++ n ∷ l
run_from-next a m n l h e =
    ap (λ k. run_from a k ++ l) {y = suc (suc m - a)} (omega arith)
    ∙ run_from-snoc a (suc m - a) l
    ∙ ap (λ k. run_from a (suc m - a) ++ k ∷ l) (omega arith)

run_from_one : (n : ℕ) (l : List ℕ) → run_from n (suc n - n) ++ l ≡ n ∷ l
run_from_one n l = ap (λ k. run_from n k ++ l) {y = 1} (omega arith)

closed_run :
    (start previous : ℕ) (l : List ℕ)
    → run_from start (previous + 1 - start) ++ l ≡ run_from start (suc previous - start) ++ l
closed_run start previous l = ap (λ k. run_from start k ++ l) (omega arith)

numbers-collapse_from :
    (start previous : ℕ) (rest : List ℕ)
    → start ≤ previous
    → Ascending (previous ∷ rest)
    → numbers (collapse_from start previous rest) ≡ run_from start (suc previous - start) ++ rest
unfolding collapse_from count
numbers-collapse_from start previous [] h a = closed_run start previous []
numbers-collapse_from start previous (number ∷ rest) h a =
    elim (Bool-cases (eqb number (previous + 1))) [
      | inl e ↦ rw e (
          numbers-collapse_from start number rest (omega arith) a.1
          ∙ run_from-next start previous number rest h (ground arith))
      | inr e ↦ rw e (
          closed_run start previous (numbers (collapse_from number number rest))
          ∙ ap (λ k. run_from start (suc previous - start) ++ k)
              (numbers-collapse_from number number rest (omega arith) a.1
                ∙ run_from_one number rest))
    ]

-- The gaps of an ascending list stand for exactly its numbers.
pub numbers-collapse : (l : List ℕ) → Ascending l → numbers (collapse l) ≡ l
unfolding collapse
numbers-collapse [] a = refl
numbers-collapse (n ∷ l) a = numbers-collapse_from n n l (omega arith) a ∙ run_from_one n l

StartsAt : List SequenceGap → ℕ → Type 0
StartsAt [] n = ⊥
StartsAt (g ∷ gs) n = g.first_missing ≡ n

collapse_from-StartsAt :
    (start previous : ℕ) (rest : List ℕ) → StartsAt (collapse_from start previous rest) start
unfolding collapse_from StartsAt
collapse_from-StartsAt start previous [] = refl
collapse_from-StartsAt start previous (number ∷ rest) =
    ground (arith, collapse_from-StartsAt start number rest)

AreRuns-cons :
    (g : SequenceGap) (gs : List SequenceGap) (n : ℕ)
    → g.first_missing ≤ g.last_missing
    → StartsAt gs n
    → g.last_missing + 1 < n
    → AreRuns gs
    → AreRuns (g ∷ gs)
unfolding StartsAt
AreRuns-cons g [] n h s k r = absurd s
AreRuns-cons g (f ∷ gs) n h s k r = (h, omega arith, r)

collapse_from-AreRuns :
    (start previous : ℕ) (rest : List ℕ)
    → start ≤ previous
    → Ascending (previous ∷ rest)
    → AreRuns (collapse_from start previous rest)
unfolding collapse_from
collapse_from-AreRuns start previous [] h a = h
collapse_from-AreRuns start previous (number ∷ rest) h a =
    elim (Bool-cases (eqb number (previous + 1))) [
      | inl e ↦ rw e (collapse_from-AreRuns start number rest (omega arith) a.1)
      | inr e ↦ rw e (
          AreRuns-cons (record { first_missing = start; last_missing = previous })
            (collapse_from number number rest) number h (collapse_from-StartsAt number number rest)
            (ground arith) (collapse_from-AreRuns number number rest (omega arith) a.1))
    ]

pub collapse-AreRuns : (l : List ℕ) → Ascending l → AreRuns (collapse l)
unfolding collapse
collapse-AreRuns [] a = tt
collapse-AreRuns (n ∷ l) a = collapse_from-AreRuns n n l (omega arith) a

length-run_from : (a n : ℕ) → length (run_from a n) ≡ n
length-run_from a zero = refl
length-run_from a (suc n) = ap suc (length-run_from (suc a) n)

pub sum-count : (gs : List SequenceGap) → sum (map count gs) ≡ length (numbers gs)
sum-count [] = refl
sum-count (g ∷ gs) = omega (
  arith,
  sum-count gs,
  length-run_from g.first_missing (count g),
  length-append (run_from g.first_missing (count g)) (numbers gs),
)
