-- ===== src/Prelude/Assoc.antt =====
-- A Python dict, in insertion order.
use mathlib.Core.Path.{◌≡◌, refl, sym, subst, ◌∙◌}
use mathlib.Core.Logic.{inl, inr}
use mathlib.Core.Option.{Option, none, some}
use mathlib.Core.List.{List, [], ◌∷◌, map}
use native.Mathlib.Omega.{arith}
use oratoria_engine.Prelude.Tests.{if◌then◌else◌, Eq, ◌==◌, ==-refl, Bool-cases}

abbrev pub Dict {ℓ κ} : Type ℓ → Type κ → Type (ℓ ⊔ κ)
Dict K V = List (K × V)

module _ {ℓ κ} {K : Type ℓ} {V : Type κ} where
  abbrev pub values : Dict K V → List V
  values = map (λ kv. kv.1)

module _ {ℓ κ} {K : Type ℓ} {V : Type κ} ⦃e : Eq K⦄ where
  -- `d.get(k)`
  unfoldable pub lookup : K → Dict K V → Option V
  lookup k [] = none
  lookup k ((j, v) ∷ d) = if j == k then some v else lookup k d

  -- `d[k] = v`
  unfoldable pub insert : K → V → Dict K V → Dict K V
  insert k v [] = (k, v) ∷ []
  insert k v ((j, w) ∷ d) = let rest = insert k v d in if j == k then (j, v) ∷ d else (j, w) ∷ rest

  -- `d.pop(k, None)`
  unfoldable pub erase : K → Dict K V → Dict K V
  erase k [] = []
  erase k ((j, w) ∷ d) = let rest = erase k d in if j == k then rest else (j, w) ∷ rest

  pub lookup-insert :
      (k j : K) (v : V) (d : Dict K V)
      → lookup j (insert k v d) ≡ (if k == j then some v else lookup j d)
  unfolding lookup insert
  lookup-insert k j v [] = refl
  lookup-insert k j v ((i, w) ∷ d) =
      ground (arith, e.beq_iff k j, e.beq_iff i k, e.beq_iff i j, lookup-insert k j v d)

  pub lookup-erase :
      (k j : K) (d : Dict K V) → lookup j (erase k d) ≡ (if k == j then none else lookup j d)
  unfolding lookup erase
  lookup-erase k j [] = ground arith
  lookup-erase k j ((i, w) ∷ d) =
      ground (arith, e.beq_iff k j, e.beq_iff i k, e.beq_iff i j, lookup-erase k j d)

  pub lookup-erase_same : (k : K) (d : Dict K V) → lookup k (erase k d) ≡ none
  lookup-erase_same k d = lookup-erase k k d ∙ rw (==-refl k) refl

  pub lookup-insert_same : (k : K) (v : V) (d : Dict K V) → lookup k (insert k v d) ≡ some v
  lookup-insert_same k v d = lookup-insert k k v d ∙ rw (==-refl k) refl

  -- A property of the items of a dict.
  abbrev pub Items {ρ} : (K → V → Type ρ) → Dict K V → Type ρ
  Items P [] = Unit
  Items P ((j, w) ∷ d) = P j w × Items P d

  module _ {ρ} (P : K → V → Type ρ) where
    pub Items-insert : (k : K) (v : V) (d : Dict K V) → P k v → Items P d → Items P (insert k v d)
    unfolding insert
    Items-insert k v [] p h = (p, tt)
    Items-insert k v ((j, w) ∷ d) p h = elim (Bool-cases (j == k)) [
      | inl same ↦ rw same (subst (λ x. P x v) (sym ((e.beq_iff j k).0 same)) p, h.1)
      | inr other ↦ rw other (h.0, Items-insert k v d p h.1)
    ]

    pub Items-lookup : (k : K) (v : V) (d : Dict K V) → Items P d → lookup k d ≡ some v → P k v
    unfolding lookup
    Items-lookup k v [] h q = cc
    Items-lookup k v ((j, w) ∷ d) h q = elim (Bool-cases (j == k)) [
      | inl same ↦
          subst (λ x. P x v) ((e.beq_iff j k).0 same) (subst (P j) (ground (arith, q, same)) h.0)
      | inr other ↦ Items-lookup k v d h.1 (ground (arith, q, other))
    ]
