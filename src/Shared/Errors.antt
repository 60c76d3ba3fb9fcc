-- ===== src/Shared/Errors.antt =====
-- src/evidence_engine/domain/shared/errors.py and application/errors.py: the exception classes,
-- and the result of code that may raise one. Messages are not modelled.
use oratoria_engine.Prelude.{◌≡◌, List, [], ◌∷◌, refl, Bool, true, false, ◌⊎◌, inl, inr}

pub data Error : Type 0 where
  invalid_identifier invalid_interval invalid_confidence fabricated_value : Error
  illegal_session_transition evidence_ledger_violation consent_violation : Error
  transcript_violation quality_violation fusion_violation unsupported_capability : Error
  schema_violation mismatched_recordings : Error
  speech_event_violation result_violation value_error index_error : Error
  prohibited_label visual_event_violation prosody_violation calibration_violation : Error
  not_authorized session_not_found result_not_ready quota_exceeded backpressure_required : Error

pub data Result {ℓ} (A : Type ℓ) : Type ℓ where
  ok : A → Result A
  raised : Error → Result A

infixl 5 ◌>>=◌ ◌>>◌
abbrev pub ◌>>=◌ {ℓ κ} : {A : Type ℓ} {B : Type κ} → Result A → (A → Result B) → Result B
ok a >>= f = f a
raised e >>= f = raised e

abbrev pub ◌>>◌ {ℓ} : {B : Type ℓ} → Result (Unit {0}) → Result B → Result B
m >> k = m >>= λ _. k

-- `if b: raise e`
abbrev pub raise_if : Bool → Error → Result (Unit {0})
raise_if true e = raised e
raise_if false e = ok tt

-- `[f(x) for x in xs]`, where `f` may raise
abbrev pub each {ℓ κ} : {A : Type ℓ} {B : Type κ} → (A → Result B) → List A → Result (List B)
each f [] = ok []
each f (x ∷ xs) = f x >>= λ y. each f xs >>= λ ys. ok (y ∷ ys)

pub Result-cases {ℓ} :
    {A : Type ℓ} (r : Result A) → ((a : A) × (r ≡ ok a)) ⊎ ((e : Error) × (r ≡ raised e))
Result-cases (ok a) = inl (a, refl)
Result-cases (raised e) = inr (e, refl)
