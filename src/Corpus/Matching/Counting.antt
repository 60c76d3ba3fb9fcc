-- ===== src/Corpus/Matching/Counting.antt =====
-- How many numbers of a range a falling list of indices leaves out.
use mathlib.Core.List.{map-append}
use oratoria_engine.Prelude.{
  ℕ, zero, suc, ◌+◌, ◌<◌, ◌≤◌, Bool, true, false, ◌||◌, Bool-cases, List, [], ◌∷◌, ◌++◌, ◌≡◌, inl,
  inr, refl, ap, arith, contains, length, length-append, map, nat_eq, eqb,
}
use oratoria_engine.Corpus.Records.{DisfluencyAnnotation}
use oratoria_engine.Corpus.Matching.{reversed, unmatched}

-- A list of numbers that falls, from below `n`.
abbrev pub Falls : ℕ → List ℕ → Type 0
Falls n [] = Unit
Falls n (a ∷ l) = (a < n) × Falls a l

Falls-mono : (m n : ℕ) (l : List ℕ) → m ≤ n → Falls m l → Falls n l
Falls-mono m n [] h f = tt
Falls-mono m n (a ∷ l) h (b, f) = (omega arith, f)

Falls-fresh : (k n : ℕ) (l : List ℕ) → n ≤ k → Falls n l → contains k l ≡ false
Falls-fresh k n [] h f = refl
Falls-fresh k n (a ∷ l) h (b, f) = ground (arith, Falls-fresh k a l (omega arith) f)

abbrev bit : Bool → ℕ
bit true = 1
bit false = 0

-- How many of the `n` numbers from `i` on are in the list.
pub tally : List ℕ → ℕ → ℕ → ℕ
tally l i zero = 0
tally l i (suc n) = bit (contains i l) + tally l (suc i) n

tally-last : (l : List ℕ) (i n : ℕ) → tally l i (suc n) ≡ tally l i n + bit (contains (i + n) l)
unfolding tally
tally-last l i zero = ground arith
tally-last l i (suc n) = ground (arith, tally-last l (suc i) n)

tally-drop : (l : List ℕ) (a i n : ℕ) → i + n ≤ a → tally (a ∷ l) i n ≡ tally l i n
unfolding tally
tally-drop l a i zero h = refl
tally-drop l a i (suc n) h = ground (arith, tally-drop l a (suc i) n (omega arith))

pub tally-Falls : (n : ℕ) (l : List ℕ) → Falls n l → tally l 0 n ≡ length l
unfolding tally
tally-Falls zero [] f = refl
tally-Falls zero (a ∷ l) f = absurd (ground arith)
tally-Falls (suc n) [] f = ground (arith, tally-last [] 0 n, tally-Falls n [] tt)
tally-Falls (suc n) (a ∷ l) (b, f) = elim (Bool-cases (eqb a n)) [
  | inl e ↦
      let d = tally-drop l a 0 n (ground arith) in
      let r = tally-Falls n l (Falls-mono a n l (ground arith) f) in
      ground (arith, tally-last (a ∷ l) 0 n, d, r)
  | inr e ↦
      let c = Falls-fresh n n (a ∷ l) (omega arith) (ground arith, f) in
      ground (arith, tally-last (a ∷ l) 0 n, tally-Falls n (a ∷ l) (ground arith, f), c)
]

module _ {W : Type 0} where
  pub length-unmatched :
      (i : ℕ) (m : List ℕ) (xs : List (DisfluencyAnnotation W))
      → length (unmatched i m xs) + tally m i (length xs) ≡ length xs
  unfolding unmatched tally
  length-unmatched i m [] = refl
  length-unmatched i m (x ∷ xs) = ground (arith, length-unmatched (suc i) m xs)

contains-append :
    (k : ℕ) (xs ys : List ℕ) → contains k (xs ++ ys) ≡ (contains k xs || contains k ys)
contains-append k [] ys = refl
contains-append k (x ∷ xs) ys = ground (arith, contains-append k xs ys)

contains_comm : (k : ℕ) (x : ℕ) (xs : List ℕ) → contains k (xs ++ x ∷ []) ≡ contains k (x ∷ xs)
contains_comm k x xs = ground (arith, contains-append k xs (x ∷ []))

module _ (f : ℕ × ℕ → ℕ) where
  pub contains-reversed :
      (k : ℕ) (ps : List (ℕ × ℕ)) → contains k (map f (reversed ps)) ≡ contains k (map f ps)
  contains-reversed k [] = refl
  contains-reversed k (p ∷ ps) = ground (
    arith,
    ap (contains k) (map-append f (reversed ps) (p ∷ [])),
    contains_comm k (f p) (map f (reversed ps)),
    contains-reversed k ps,
  )

  pub tally-reversed :
      (ps : List (ℕ × ℕ)) (i n : ℕ) → tally (map f (reversed ps)) i n ≡ tally (map f ps) i n
  unfolding tally
  tally-reversed ps i zero = refl
  tally-reversed ps i (suc n) = ground (arith, contains-reversed i ps, tally-reversed ps (suc i) n)

pub length-map : (f : ℕ × ℕ → ℕ) (ps : List (ℕ × ℕ)) → length (map f ps) ≡ length ps
length-map f [] = refl
length-map f (p ∷ ps) = ap suc (length-map f ps)

pub length-reversed : (ps : List (ℕ × ℕ)) → length (reversed ps) ≡ length ps
length-reversed [] = refl
length-reversed (p ∷ ps) = omega (arith, length-append (reversed ps) (p ∷ []), length-reversed ps)
