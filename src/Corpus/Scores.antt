-- ===== src/Corpus/Scores.antt =====
-- What src/corpus uses of the floats, and the laws of it that its matching needs.
use oratoria_engine.Prelude.{ℕ, Bool, true, false, ◌≡◌, ◌⊎◌}

-- `ratio a b` is `a / b`, `of_int n` is `float(n)`, `near x y` is `abs(x - y) < 1e-12` and `same` is
-- the `==` of the floats.
pub record Scores : Type 1 where
  pub W : Type 0
  pub zero : W
  pub one : W
  pub add : W → W → W
  pub le : W → W → Bool
  pub lt : W → W → Bool
  pub same : W → W → Bool
  pub near : W → W → Bool
  pub ratio : ℕ → ℕ → W
  pub of_int : ℕ → W

-- The floats that are not NaN are ordered, addition rounds monotonically, and a float is near itself.
pub record ScoreLaws (sc : Scores) : Type 0 where
  pub le_refl : (x : sc.W) → sc.le x x ≡ true
  pub le_trans : (x y z : sc.W) → sc.le x y ≡ true → sc.le y z ≡ true → sc.le x z ≡ true
  pub lt_or_le : (x y : sc.W) → (sc.lt x y ≡ true) ⊎ (sc.le y x ≡ true)
  pub lt_le : (x y : sc.W) → sc.lt x y ≡ true → sc.le x y ≡ true
  pub lt_not_le : (x y : sc.W) → sc.lt x y ≡ true → sc.le y x ≡ false
  pub add_mono : (x y w : sc.W) → sc.le x y ≡ true → sc.le (sc.add x w) (sc.add y w) ≡ true
  pub same_sound : (x y : sc.W) → sc.same x y ≡ true → x ≡ y
  pub same_refl : (x : sc.W) → sc.same x x ≡ true
  pub near_refl : (x : sc.W) → sc.near x x ≡ true
