-- ===== src/Shared/Respect.antt =====
-- A relation between the store before and after that every step of a computation keeps.
use oratoria_engine.Prelude.{Bool, true, false, if◌then◌else◌}
use oratoria_engine.Shared.Errors.{Result, ok, raised}
use oratoria_engine.Shared.Effects.{Action, pure, from_result, continue_with, ◌>>=◌}

module _ {ℓ κ} {S : Type ℓ} (R : S → S → Type κ) where
  abbrev pub Respects {μ} : {A : Type μ} → Action S A → Type (ℓ ⊔ κ)
  Respects m = (w : S) → R w (m w).1

  module _ (refl_R : (w : S) → R w w) (trans_R : (u v w : S) → R u v → R v w → R u w) where
    pub Respects-pure {μ} : {A : Type μ} (a : A) → Respects (pure a)
    Respects-pure a w = refl_R w

    pub Respects-result {μ} : {A : Type μ} (r : Result A) → Respects (from_result r)
    Respects-result r w = refl_R w

    pub Respects-continue {μ ν} :
        {A : Type μ} {B : Type ν} (f : A → Action S B) (w : S) (p : Result A × S)
        → R w p.1
        → ((a : A) → Respects (f a))
        → R w (continue_with f p).1
    Respects-continue f w (ok a, v) h k = trans_R w v (f a v).1 h (k a v)
    Respects-continue f w (raised e, v) h k = h

    pub Respects-bind {μ ν} :
        {A : Type μ} {B : Type ν} (m : Action S A) (f : A → Action S B)
        → Respects m
        → ((a : A) → Respects (f a))
        → Respects (m >>= f)
    Respects-bind m f h k w = Respects-continue f w (m w) (h w) k

    pub Respects-if {μ} :
        {A : Type μ} (b : Bool) (m n : Action S A)
        → Respects m
        → Respects n
        → Respects (if b then m else n)
    Respects-if true m n h k = h
    Respects-if false m n h k = k
