-- ===== src/Prelude/Batch.antt =====
-- Deleting from a dict every item that a test selects: the keys first, then one `del` for each.
use mathlib.Core.Path.{◌≡◌, refl, sym, subst, ◌∙◌}
use mathlib.Core.Logic.{inl, inr}
use mathlib.Core.Bool.{Bool, true, false}
use mathlib.Core.Option.{none}
use mathlib.Core.List.{List, [], ◌∷◌}
use native.Mathlib.Omega.{arith}
use oratoria_engine.Prelude.Tests.{if◌then◌else◌, Eq, ◌==◌, Bool-cases}
use oratoria_engine.Prelude.Lists.{contains}
use oratoria_engine.Prelude.Assoc.{Dict, lookup, erase, lookup-erase, Items}

module _ {ℓ κ} {K : Type ℓ} {V : Type κ} where
  -- `[key for key, value in d.items() if p(key, value)]`
  abbrev pub keys_where : (K → V → Bool) → Dict K V → List K
  keys_where p [] = []
  keys_where p ((k, v) ∷ d) = let rest = keys_where p d in if p k v then k ∷ rest else rest

module _ {ℓ κ} {K : Type ℓ} {V : Type κ} ⦃e : Eq K⦄ where
  -- `for key in keys: del d[key]`
  abbrev pub erase_all : List K → Dict K V → Dict K V
  erase_all [] d = d
  erase_all (k ∷ ks) d = erase_all ks (erase k d)

  pub Items-map {ρ σ} :
      (P : K → V → Type ρ) (Q : K → V → Type σ) (d : Dict K V)
      → ((k : K) (v : V) → P k v → Q k v)
      → Items P d
      → Items Q d
  Items-map P Q [] f h = tt
  Items-map P Q ((k, v) ∷ d) f h = (f k v h.0, Items-map P Q d f h.1)

  pub lookup-erase_all :
      (ks : List K) (k : K) (d : Dict K V)
      → lookup k (erase_all ks d) ≡ (if contains k ks then none else lookup k d)
  lookup-erase_all [] k d = refl
  lookup-erase_all (j ∷ ks) k d =
      ground (arith, lookup-erase_all ks k (erase j d), lookup-erase j k d)

  pub Items-erase {ρ} :
      (P : K → V → Type ρ) (k : K) (d : Dict K V)
      → Items P d
      → Items (λ j v. P j v × ((k == j) ≡ false)) (erase k d)
  unfolding erase
  Items-erase P k [] h = tt
  Items-erase P k ((j, v) ∷ d) h = elim (Bool-cases (j == k)) [
    | inl same ↦ rw same (Items-erase P k d h.1)
    | inr other ↦
        rw other ((h.0, ground (arith, other, e.beq_iff j k, e.beq_iff k j)), Items-erase P k d h.1)
  ]

  module _ (p : K → V → Bool) where
    abbrev Covered : List K → K → V → Type 0
    Covered ks k v = p k v ≡ true → contains k ks ≡ true

    erase_all-Covered :
        (ks : List K) (d : Dict K V)
        → Items (Covered ks) d
        → Items (λ k v. p k v ≡ false) (erase_all ks d)
    erase_all-Covered [] d h =
        Items-map (Covered []) (λ k v. p k v ≡ false) d (λ k v c. ground (arith, c)) h
    erase_all-Covered (k ∷ ks) d h = erase_all-Covered ks (erase k d) (
        Items-map (λ j v. Covered (k ∷ ks) j v × ((k == j) ≡ false)) (Covered ks) (erase k d)
          (λ j v c q. ground (arith, c.0 q, c.1)) (Items-erase (Covered (k ∷ ks)) k d h))

    covers_head :
        (k : K) (v : V) (d : Dict K V)
        → Covered (keys_where p ((k, v) ∷ d)) k v
          × ((j : K)
              → contains j (keys_where p d) ≡ true
              → contains j (keys_where p ((k, v) ∷ d)) ≡ true)
    covers_head k v d = (λ q. ground (arith, q, e.beq_iff k k), λ j c. ground (arith, c))

    keys_where_covers : (d : Dict K V) → Items (Covered (keys_where p d)) d
    keys_where_covers [] = tt
    keys_where_covers ((k, v) ∷ d) =
        let (here, later) = covers_head k v d in
        (
          here,
          Items-map (Covered (keys_where p d)) (Covered (keys_where p ((k, v) ∷ d))) d
              (λ j w c q. later j (c q)) (keys_where_covers d),
        )

    -- No selected item is left.
    pub erase_all_clears :
        (d : Dict K V) → Items (λ k v. p k v ≡ false) (erase_all (keys_where p d) d)
    erase_all_clears d = erase_all-Covered (keys_where p d) d (keys_where_covers d)

    spared_key :
        (k : K) (d : Dict K V) → ((v : V) → p k v ≡ false) → contains k (keys_where p d) ≡ false
    spared_key k [] h = refl
    spared_key k ((j, v) ∷ d) h = elim (Bool-cases (j == k)) [
      | inl same ↦
          let miss : p j v ≡ false =
            subst (λ x. p x v ≡ false) (sym ((e.beq_iff j k).0 same)) (h v) in
          rw miss (spared_key k d h)
      | inr other ↦ ground (arith, other, spared_key k d h)
    ]

    -- A key under which nothing can be selected keeps its value.
    pub erase_all_spares :
        (k : K) (d : Dict K V)
        → ((v : V) → p k v ≡ false)
        → lookup k (erase_all (keys_where p d) d) ≡ lookup k d
    erase_all_spares k d h = lookup-erase_all (keys_where p d) k d ∙ rw (spared_key k d h) refl
