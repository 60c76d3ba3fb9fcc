-- ===== src/Prelude/Sort.antt =====
-- `sorted`: a stable sort by a Boolean order, and its laws.
use Prim.Native.Nat.{suc}
use mathlib.Core.Path.{◌≡◌, refl, ap, sym, ◌∙◌}
use mathlib.Core.Logic.{◌⊎◌, ◌↔◌, inl, inr}
use mathlib.Core.Bool.{Bool, true, false}
use mathlib.Core.List.{List, [], ◌∷◌}
use mathlib.Core.List.{Perm}
use mathlib.Core.List.Perm
use native.Mathlib.Omega.{arith}
use oratoria_engine.Prelude.Tests.{if◌then◌else◌, Bool-cases}
use oratoria_engine.Prelude.Lists.{keep, All, All-keep, In, length}

module _ {ℓ} {A : Type ℓ} (le : A → A → Bool) where
  -- An item goes before the first that it is not after, so equal items keep their order.
  unfoldable pub insert : A → List A → List A
  insert x [] = x ∷ []
  insert x (y ∷ ys) = let rest = insert x ys in if le x y then x ∷ y ∷ ys else y ∷ rest

  unfoldable pub sort : List A → List A
  unfolding insert
  sort [] = []
  sort (x ∷ xs) = insert x (sort xs)

  abbrev pub IsSorted : List A → Type 0
  IsSorted [] = Unit
  IsSorted (x ∷ xs) = All (λ y. le x y ≡ true) xs × IsSorted xs

-- What Python's tuple comparison gives: any two items compare, and the order is transitive.
pub record IsOrder {ℓ} {A : Type ℓ} (le : A → A → Bool) : Type ℓ where
  pub total : (x y : A) → (le x y ≡ true) ⊎ (le y x ≡ true)
  pub trans : (x y z : A) → le x y ≡ true → le y z ≡ true → le x z ≡ true

module _ {ℓ} {A : Type ℓ} (le : A → A → Bool) where
  insert-Perm : (x : A) (l : List A) → Perm (insert le x l) (x ∷ l)
  unfolding insert
  insert-Perm x [] = Perm.rfl
  insert-Perm x (y ∷ ys) = elim (Bool-cases (le x y)) [
    | inl h ↦ rw h Perm.rfl
    | inr h ↦ rw h (Perm.trans (Perm.cons y (insert-Perm x ys)) (Perm.swap x y ys))
  ]

  pub sort-Perm : (l : List A) → Perm (sort le l) l
  unfolding sort
  sort-Perm [] = Perm.rfl
  sort-Perm (x ∷ xs) = Perm.trans (insert-Perm x (sort le xs)) (Perm.cons x (sort-Perm xs))

  length-insert : (x : A) (l : List A) → length (insert le x l) ≡ suc (length l)
  unfolding insert
  length-insert x [] = refl
  length-insert x (y ∷ ys) = ground (arith, length-insert x ys)

  pub length-sort : (l : List A) → length (sort le l) ≡ length l
  unfolding sort
  length-sort [] = refl
  length-sort (x ∷ xs) = length-insert x (sort le xs) ∙ ap suc (length-sort xs)

  module _ {κ} (P : A → Type κ) where
    All-insert : (x : A) (l : List A) → P x → All P l → All P (insert le x l)
    unfolding insert
    All-insert x [] px h = (px, tt)
    All-insert x (y ∷ ys) px h = elim (Bool-cases (le x y)) [
      | inl e ↦ rw e (px, h)
      | inr e ↦ rw e (h.0, All-insert x ys px h.1)
    ]

    pub All-sort : (l : List A) → All P l → All P (sort le l)
    unfolding sort
    All-sort [] h = tt
    All-sort (x ∷ xs) h = All-insert x (sort le xs) h.0 (All-sort xs h.1)

module _ {A : Type 0} (le : A → A → Bool) where
  In-insert : (a x : A) (l : List A) → In a (insert le x l) ↔ In a (x ∷ l)
  unfolding insert
  In-insert a x [] = (λ h. h, λ h. h)
  In-insert a x (y ∷ ys) = elim (Bool-cases (le x y)) [
    | inl e ↦ rw e (λ h. h, λ h. h)
    | inr e ↦
        rw e (λ h. ground (arith, (In-insert a x ys).0), λ h. ground (arith, (In-insert a x ys).1))
  ]

  -- Sorting neither adds nor drops an item.
  pub In-sort : (a : A) (l : List A) → In a (sort le l) ↔ In a l
  unfolding sort
  In-sort a [] = (λ h. h, λ h. h)
  In-sort a (x ∷ xs) = (
    λ h. ground (arith, (In-insert a x (sort le xs)).0 h, (In-sort a xs).0),
    λ h. (In-insert a x (sort le xs)).1 (ground (arith, h, (In-sort a xs).1)),
  )

module _ {ℓ} {A : Type ℓ} {le : A → A → Bool} (o : IsOrder le) where
  below_trans :
      (x y : A) (l : List A)
      → le x y ≡ true
      → All (λ z. le y z ≡ true) l
      → All (λ z. le x z ≡ true) l
  below_trans x y [] h hs = tt
  below_trans x y (z ∷ l) h hs = (o.trans x y z h hs.0, below_trans x y l h hs.1)

  not_le : (x y : A) → le x y ≡ false → le y x ≡ true
  not_le x y h = ground (arith, o.total x y)

  pub insert-IsSorted : (x : A) (l : List A) → IsSorted le l → IsSorted le (insert le x l)
  unfolding insert
  insert-IsSorted x [] h = (tt, tt)
  insert-IsSorted x (y ∷ ys) h = elim (Bool-cases (le x y)) [
    | inl e ↦ rw e ((e, below_trans x y ys e h.0), h)
    | inr e ↦
        rw e (All-insert le (λ z. le y z ≡ true) x ys (not_le x y e) h.0, insert-IsSorted x ys h.1)
  ]

  pub sort-IsSorted : (l : List A) → IsSorted le (sort le l)
  unfolding sort
  sort-IsSorted [] = tt
  sort-IsSorted (x ∷ xs) = insert-IsSorted x (sort le xs) (sort-IsSorted xs)

  insert_head : (x : A) (l : List A) → All (λ z. le x z ≡ true) l → insert le x l ≡ x ∷ l
  unfolding insert
  insert_head x [] h = refl
  insert_head x (y ∷ ys) h = rw (h.0)

  pub sort_sorted : (l : List A) → IsSorted le l → sort le l ≡ l
  unfolding sort
  sort_sorted [] h = refl
  sort_sorted (x ∷ xs) h = rw (sort_sorted xs h.1) (insert_head x xs h.0)

  pub keep-IsSorted : (p : A → Bool) (l : List A) → IsSorted le l → IsSorted le (keep p l)
  keep-IsSorted p [] h = tt
  keep-IsSorted p (x ∷ xs) h = elim (Bool-cases (p x)) [
    | inl e ↦ rw e (All-keep (λ y. le x y ≡ true) p xs h.0, keep-IsSorted p xs h.1)
    | inr e ↦ rw e (keep-IsSorted p xs h.1)
  ]

  keep-insert :
      (p : A → Bool) (x : A) (l : List A)
      → IsSorted le l
      → keep p (insert le x l) ≡ (if p x then insert le x (keep p l) else keep p l)
  unfolding insert
  keep-insert p x [] h = ground arith
  keep-insert p x (y ∷ ys) h = elim (Bool-cases (le x y)) [
    | inl e ↦ elim (Bool-cases (p x)) [
      | inl px ↦
          rw (e, px)
            (sym (
              insert_head x (keep p (y ∷ ys))
                (All-keep (λ z. le x z ≡ true) p (y ∷ ys) (e, below_trans x y ys e h.0))))
      | inr px ↦ rw (e, px)
    ]
    | inr e ↦ ground (arith, keep-insert p x ys h.1)
  ]

  -- The sort is stable: it commutes with any selection.
  pub keep-sort : (p : A → Bool) (l : List A) → keep p (sort le l) ≡ sort le (keep p l)
  unfolding sort
  keep-sort p [] = refl
  keep-sort p (x ∷ xs) =
      keep-insert p x (sort le xs) (sort-IsSorted xs) ∙ ground (arith, keep-sort p xs)
