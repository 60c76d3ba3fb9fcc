-- ===== src/Prelude/Shuffle.antt =====
-- Sorting a rearranged list gives the same list, when no two of its items share a key.
use mathlib.Core.Path.{◌≡◌, refl, ap, sym, ◌∙◌}
use mathlib.Core.Logic.{inl, inr}
use mathlib.Core.Bool.{Bool, true, false}
use mathlib.Core.List.{List, [], ◌∷◌}
use native.Mathlib.Omega.{arith}
use oratoria_engine.Prelude.Tests.{Bool-cases}
use oratoria_engine.Prelude.Lists.{In}
use oratoria_engine.Prelude.Sort.{IsOrder, insert, sort}

-- The second list is the first with its items exchanged, two neighbours at a time.
pub data Shuffled {A : Type 0} : List A → List A → Type 0 where
  same : {xs : List A} → Shuffled xs xs
  skip : {x : A} {xs ys : List A} → Shuffled xs ys → Shuffled (x ∷ xs) (x ∷ ys)
  swap : {x y : A} {xs : List A} → Shuffled (x ∷ y ∷ xs) (y ∷ x ∷ xs)
  after : {xs ys zs : List A} → Shuffled xs ys → Shuffled ys zs → Shuffled xs zs

pub In-Shuffled : {A : Type 0} {xs ys : List A} → Shuffled xs ys → (a : A) → In a ys → In a xs
In-Shuffled same a i = i
In-Shuffled (skip s) a (inl e) = inl e
In-Shuffled (skip s) a (inr i) = inr (In-Shuffled s a i)
In-Shuffled swap a (inl e) = inr (inl e)
In-Shuffled swap a (inr (inl e)) = inl e
In-Shuffled swap a (inr (inr i)) = inr (inr i)
In-Shuffled (after s t) a i = In-Shuffled s a (In-Shuffled t a i)

module _ {A : Type 0} (le : A → A → Bool) where
  -- Two items of the list that tie are the same item.
  abbrev pub IsKeyed : List A → Type 0
  IsKeyed l = (x y : A) → In x l → In y l → le x y ≡ true → le y x ≡ true → x ≡ y

  module _ (o : IsOrder le) where
    insert_past :
        (x y : A) (l : List A)
        → le x y ≡ true
        → le y x ≡ false
        → insert le x (insert le y l) ≡ insert le y (insert le x l)
    unfolding insert
    insert_past x y [] h k = ground (arith, h, k)
    insert_past x y (z ∷ l) h k = elim (Bool-cases (le y z)) [
      | inl b ↦ ground (arith, h, k, b, o.trans x y z)
      | inr b ↦ elim (Bool-cases (le x z)) [
        | inl a ↦ ground (arith, h, k, b, a)
        | inr a ↦ ground (arith, a, b, insert_past x y l h k)
      ]
    ]

    insert_comm :
        (x y : A) (l : List A)
        → (le x y ≡ true → le y x ≡ true → x ≡ y)
        → insert le x (insert le y l) ≡ insert le y (insert le x l)
    insert_comm x y l e = elim (Bool-cases (le x y)) [
      | inl a ↦ elim (Bool-cases (le y x)) [
        | inl b ↦
            ap (λ z. insert le z (insert le y l)) (e a b)
            ∙ ap (λ z. insert le y (insert le z l)) (sym (e a b))
        | inr b ↦ insert_past x y l a b
      ]
      | inr a ↦ sym (insert_past y x l (ground (arith, a, o.total x y)) a)
    ]

    pub sort-Shuffled : {xs ys : List A} → Shuffled xs ys → IsKeyed xs → sort le xs ≡ sort le ys
    unfolding sort
    sort-Shuffled same k = refl
    sort-Shuffled (skip {x} s) k =
        ap (insert le x) (sort-Shuffled s (λ a b i j. k a b (inr i) (inr j)))
    sort-Shuffled (swap {x} {y} {xs}) k =
        insert_comm x y (sort le xs) (k x y (inl refl) (inr (inl refl)))
    sort-Shuffled (after s t) k =
        sort-Shuffled s k
        ∙ sort-Shuffled t (λ a b i j. k a b (In-Shuffled s a i) (In-Shuffled s b j))

module _ {A : Type 0} (le : A → A → Bool) where
  pub IsKeyed-one : {a : A} → IsKeyed le (a ∷ [])
  IsKeyed-one x y (inl e) (inl f) h k = e ∙ sym f
  IsKeyed-one x y (inl e) (inr j) h k = elim j [ ]
  IsKeyed-one x y (inr i) j h k = elim i [ ]

  pub IsKeyed-two : {a b : A} → le a b ≡ false → IsKeyed le (a ∷ b ∷ [])
  IsKeyed-two n x y (inl e) (inl f) h k = e ∙ sym f
  IsKeyed-two n x y (inl e) (inr (inl f)) h k = ground (arith, n, e, f, h)
  IsKeyed-two n x y (inl e) (inr (inr j)) h k = elim j [ ]
  IsKeyed-two n x y (inr (inl e)) (inl f) h k = ground (arith, n, e, f, k)
  IsKeyed-two n x y (inr (inl e)) (inr (inl f)) h k = e ∙ sym f
  IsKeyed-two n x y (inr (inl e)) (inr (inr j)) h k = elim j [ ]
  IsKeyed-two n x y (inr (inr i)) j h k = elim i [ ]
