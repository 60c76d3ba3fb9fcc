-- ===== src/Shared/Effects.antt =====
-- Code that reads and writes a store and may raise: what was written before the exception stays.
use oratoria_engine.Prelude.{Bool, if◌then◌else◌, Option, none, some}
use oratoria_engine.Shared.Errors.{Error, Result, ok, raised}

abbrev pub Action {ℓ κ} : Type ℓ → Type κ → Type (ℓ ⊔ κ)
Action S A = S → Result A × S

module _ {ℓ κ} {S : Type ℓ} {A : Type κ} where
  abbrev pub pure : A → Action S A
  pure a = λ w. (ok a, w)

  abbrev pub raises : Error → Action S A
  raises e = λ w. (raised e, w)

  -- The value, or the exception where there is none.
  abbrev pub from_option : Error → Option A → Action S A
  from_option e none = raises e
  from_option e (some a) = pure a

  abbrev pub from_result : Result A → Action S A
  from_result r = λ w. (r, w)

  -- Reading and writing the store.
  abbrev pub reads : (S → A) → Action S A
  reads f = λ w. (ok (f w), w)

  abbrev pub changes : (S → A × S) → Action S A
  changes f = λ w. let (a, w') = f w in (ok a, w')

module _ {ℓ} {S : Type ℓ} where
  abbrev pub writes : (S → S) → Action S (Unit {0})
  writes f = λ w. (ok tt, f w)

  abbrev pub refuse_if : Bool → Error → Action S (Unit {0})
  refuse_if b e = if b then raises e else pure tt

module _ {ℓ κ μ} {S : Type ℓ} {A : Type κ} {B : Type μ} where
  abbrev pub continue_with : (A → Action S B) → Result A × S → Result B × S
  continue_with f (ok a, w) = f a w
  continue_with f (raised e, w) = (raised e, w)

  infixl 5 ◌>>=◌
  abbrev pub ◌>>=◌ : Action S A → (A → Action S B) → Action S B
  m >>= f = λ w. continue_with f (m w)

infixl 5 ◌>>◌
abbrev pub ◌>>◌ {ℓ κ} : {S : Type ℓ} {B : Type κ} → Action S (Unit {0}) → Action S B → Action S B
m >> k = m >>= λ _. k
