-- ===== src/Prelude/Text.antt =====
-- Python's order on `str` (by code points), and `str.strip` as far as the program tests it.
use Prim.Native.Char.{code}
use Prim.Native.String.{String}
use Prim.Native.Nat.{ℕ}
use mathlib.Core.Path.{◌≡◌, refl}
use mathlib.Core.Bool.{Bool, true, false, ◌&&◌, ◌||◌}
use mathlib.Core.List.{List, [], ◌∷◌}
use mathlib.Core.Logic.{◌⊎◌, inl, inr}
use native.Mathlib.Omega.{arith}
use oratoria_engine.Prelude.Tests.{ltb, leb, eqb}
use oratoria_engine.Prelude.Lists.{all}

abbrev pub codes : String → List ℕ
codes String.[] = []
codes (String.◌∷◌ c s) = code c ∷ codes s

-- Lexicographic order: a proper prefix comes first.
pub leb_codes : List ℕ → List ℕ → Bool
leb_codes [] ys = true
leb_codes (x ∷ xs) [] = false
leb_codes (x ∷ xs) (y ∷ ys) = ltb x y || (eqb x y && leb_codes xs ys)

pub leb_codes_total : (xs ys : List ℕ) → (leb_codes xs ys ≡ true) ⊎ (leb_codes ys xs ≡ true)
unfolding leb_codes
leb_codes_total [] ys = inl refl
leb_codes_total (x ∷ xs) [] = inr refl
leb_codes_total (x ∷ xs) (y ∷ ys) = ground (arith, leb_codes_total xs ys)

pub leb_codes_trans :
    (xs ys zs : List ℕ) → leb_codes xs ys ≡ true → leb_codes ys zs ≡ true → leb_codes xs zs ≡ true
unfolding leb_codes
leb_codes_trans [] ys zs h k = refl
leb_codes_trans (x ∷ xs) [] zs h k = ground arith
leb_codes_trans (x ∷ xs) (y ∷ ys) [] h k = ground arith
leb_codes_trans (x ∷ xs) (y ∷ ys) (z ∷ zs) h k = ground (arith, leb_codes_trans xs ys zs)

-- `s <= t`
unfoldable pub leb_text : String → String → Bool
unfolding leb_codes
leb_text s t = leb_codes (codes s) (codes t)

pub leb_text_total : (s t : String) → (leb_text s t ≡ true) ⊎ (leb_text t s ≡ true)
unfolding leb_text
leb_text_total s t = leb_codes_total (codes s) (codes t)

pub leb_text_trans :
    (s t u : String) → leb_text s t ≡ true → leb_text t u ≡ true → leb_text s u ≡ true
unfolding leb_text
leb_text_trans s t u = leb_codes_trans (codes s) (codes t) (codes u)

-- `str.isspace` of one character
is_space : ℕ → Bool
is_space c =
    (leb 9 c && leb c 13)
    || (leb 28 c && leb c 32)
    || eqb c 133
    || eqb c 160
    || eqb c 5760
    || (leb 8192 c && leb c 8202)
    || eqb c 8232
    || eqb c 8233
    || eqb c 8239
    || eqb c 8287
    || eqb c 12288

-- `not s.strip()`
unfoldable pub is_blank : String → Bool
unfolding is_space
is_blank s = all is_space (codes s)
