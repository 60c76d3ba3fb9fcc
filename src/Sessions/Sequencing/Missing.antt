-- ===== src/Sessions/Sequencing/Missing.antt =====
-- What the set difference of `finalize` computes, and how many numbers are missing.
use oratoria_engine.Prelude.{
  ℕ, zero, suc, ◌+◌, ◌<◌, ◌≡◌, refl, false, not, ◌&&◌, List, [], ◌∷◌, ◌++◌, arith, ltb, eqb,
  contains, nat_eq, length, length-append, keep, Bool-cases, inl, inr, All, if◌then◌else◌, ◌||◌,
}
use oratoria_engine.Sessions.Sequencing.{
  ChunkLedger, collapse, missing_below, missing_count, finalize,
}
use oratoria_engine.Sessions.Sequencing.Gaps.{Ascending, numbers-collapse, sum-count}

-- Every missing number lies below the bound, and the next bound may be appended.
Ascending-snoc : (l : List ℕ) (n : ℕ) → Ascending l → All (λ m. m < n) l → Ascending (l ++ n ∷ [])
Ascending-snoc [] n a h = tt
Ascending-snoc (m ∷ []) n a h = (h.0, tt)
Ascending-snoc (m ∷ k ∷ l) n a h = (a.0, Ascending-snoc (k ∷ l) n a.1 h.1)

All-below-suc : (l : List ℕ) (n : ℕ) → All (λ m. m < n) l → All (λ m. m < suc n) l
All-below-suc [] n h = tt
All-below-suc (m ∷ l) n h = (omega arith, All-below-suc l n h.1)

All-snoc : (l : List ℕ) (n : ℕ) → All (λ m. m < suc n) l → All (λ m. m < suc n) (l ++ n ∷ [])
All-snoc [] n h = (omega arith, tt)
All-snoc (m ∷ l) n h = (h.0, All-snoc l n h.1)

missing_below-below : (seen : List ℕ) (n : ℕ) → All (λ m. m < n) (missing_below seen n)
unfolding missing_below
missing_below-below seen zero = tt
missing_below-below seen (suc n) =
    let h = All-below-suc (missing_below seen n) n (missing_below-below seen n) in
    elim (Bool-cases (contains n seen)) [
      | inl e ↦ rw e h
      | inr e ↦ rw e (All-snoc (missing_below seen n) n h)
    ]

pub missing_below-Ascending : (seen : List ℕ) (n : ℕ) → Ascending (missing_below seen n)
unfolding missing_below
missing_below-Ascending seen zero = tt
missing_below-Ascending seen (suc n) = elim (Bool-cases (contains n seen)) [
  | inl e ↦ rw e (missing_below-Ascending seen n)
  | inr e ↦ rw e (
      Ascending-snoc (missing_below seen n) n (missing_below-Ascending seen n)
        (missing_below-below seen n))
]

contains-snoc : (m n : ℕ) (l : List ℕ) → contains m (l ++ n ∷ []) ≡ (contains m l || eqb n m)
contains-snoc m n [] = ground arith
contains-snoc m n (k ∷ l) = ground (arith, contains-snoc m n l)

missing_below-suc :
    (seen : List ℕ) (n : ℕ)
    → missing_below seen (suc n)
      ≡ (if contains n seen then missing_below seen n else missing_below seen n ++ n ∷ [])
unfolding missing_below
missing_below-suc seen n = refl

-- A number is in the set difference exactly when it lies below the bound and was not seen.
pub contains-missing_below :
    (seen : List ℕ) (n m : ℕ)
    → contains m (missing_below seen n) ≡ (ltb m n && not (contains m seen))
contains-missing_below seen zero m = unfold missing_below in ground arith
contains-missing_below seen (suc n) m =
    rw (missing_below-suc seen n)
      (ground (arith, contains-snoc m n (missing_below seen n), contains-missing_below seen n m))

-- Of the numbers below the bound, those that are missing and those that were seen make up all.
seen_below : List ℕ → ℕ → List ℕ
seen_below seen n = keep (λ x. ltb x n) seen

abbrev pub IsNodup : List ℕ → Type 0
IsNodup [] = Unit
IsNodup (n ∷ l) = (contains n l ≡ false) × IsNodup l

length-seen_below-suc :
    (seen : List ℕ) (n : ℕ)
    → IsNodup seen
    → length (seen_below seen (suc n))
      ≡ length (seen_below seen n) + (if contains n seen then 1 else 0)
unfolding seen_below
length-seen_below-suc [] n d = ground arith
length-seen_below-suc (m ∷ seen) n d = ground (arith, length-seen_below-suc seen n d.1, d.0)

seen_below_zero : (seen : List ℕ) → length (seen_below seen 0) ≡ 0
unfolding seen_below
seen_below_zero [] = refl
seen_below_zero (m ∷ seen) = ground (arith, seen_below_zero seen)

length-missing_below :
    (seen : List ℕ) (n : ℕ)
    → IsNodup seen
    → length (missing_below seen n) + length (seen_below seen n) ≡ n
length-missing_below seen zero d = unfold missing_below in omega (arith, seen_below_zero seen)
length-missing_below seen (suc n) d = ground (
  arith,
  missing_below-suc seen n,
  length-append (missing_below seen n) (n ∷ []),
  length-seen_below-suc seen n d,
  length-missing_below seen n d,
)

seen_below-All : (seen : List ℕ) (n : ℕ) → All (λ m. m < n) seen → seen_below seen n ≡ seen
unfolding seen_below
seen_below-All [] n h = refl
seen_below-All (m ∷ seen) n h = ground (arith, seen_below-All seen n h.1)

-- After `finalize` the missing and the seen numbers make up all that were expected.
pub missing_count-finalize :
    (l : ChunkLedger)
    → IsNodup l.seen
    → All (λ m. m < l.expected) l.seen
    → missing_count (finalize l) + length l.seen ≡ l.expected
unfolding missing_count finalize
missing_count-finalize l d b = ground (
  arith,
  sum-count (collapse (missing_below l.seen l.expected)),
  numbers-collapse (missing_below l.seen l.expected) (missing_below-Ascending l.seen l.expected),
  length-missing_below l.seen l.expected d,
  seen_below-All l.seen l.expected b,
)
