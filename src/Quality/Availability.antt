-- ===== src/Quality/Availability.antt =====
-- `is_usable` and `unavailability_for`, which answer one question in two ways.
use oratoria_engine.Prelude.{
  ◌≡◌, ◌↔◌, ◌⊎◌, inl, inr, refl, ap, subst, ◌∙◌, true, false, not, ◌&&◌, List, [], ◌∷◌, Option,
  none, some, keep, all, any, arith, All, In, Bool-cases, ◌==◌,
}
use oratoria_engine.Shared.Errors.{ok}
use oratoria_engine.Shared.Timeline.{Interval}
use oratoria_engine.Shared.Provenance.{Modality, modality_eq}
use oratoria_engine.Shared.Measurement.{Unavailable, UnavailabilityReason, modality_not_captured}
use oratoria_engine.Quality.{
  ModalityAvailability, QualityReport, concerns, first_unusable, is_usable, unavailability_for,
  as_unavailable, all_usable,
}

-- What the constructor guarantees: a record has a reason exactly when it is not usable.
abbrev pub IsRecorded : ModalityAvailability → Type 0
IsRecorded a =
    ((a.is_usable ≡ true) × (a.reason ≡ none))
    ⊎ ((a.is_usable ≡ false) × ((reason : UnavailabilityReason) × (a.reason ≡ some reason)))

module _ (m : Modality) (w : Interval) where
  -- What the answer says of the records: `none` that each one that concerns the window is usable
  -- and that the modality was captured, and a reason that it comes from one that is not usable, or
  -- that nothing was recorded of the modality.
  abbrev pub Explains : List ModalityAvailability → Option Unavailable → Type 0
  Explains rs none =
      ((a : ModalityAvailability) → In a rs → concerns m w a ≡ true → a.is_usable ≡ true)
      × (any (λ a. a.modality == m) rs ≡ true)
  Explains rs (some u) =
      ((a : ModalityAvailability) × In a rs
        × (concerns m w a ≡ true)
        × (a.is_usable ≡ false)
        × (a.reason ≡ some u.reason))
      ⊎ ((any (λ a. a.modality == m) rs ≡ false) × (u.reason ≡ modality_not_captured))

  -- What the loop finds, before what follows it.
  abbrev Found : List ModalityAvailability → Option Unavailable → Type 0
  Found rs after =
      ((first_unusable m w rs after ≡ ok after)
        × ((a : ModalityAvailability) → In a rs → concerns m w a ≡ true → a.is_usable ≡ true))
      ⊎ ((u : Unavailable) × (first_unusable m w rs after ≡ ok (some u))
          × ((a : ModalityAvailability) × In a rs
              × (concerns m w a ≡ true)
              × (a.is_usable ≡ false)
              × (a.reason ≡ some u.reason)))

  as_unavailable-ok :
      (a : ModalityAvailability)
      → IsRecorded a
      → a.is_usable ≡ false
      → (u : Unavailable) × (as_unavailable a ≡ ok u) × (a.reason ≡ some u.reason)
  unfolding as_unavailable
  as_unavailable-ok a (inl (h, r)) n = ground (arith, h, n)
  as_unavailable-ok a (inr (h, (reason, r))) n =
      (record { reason = reason; detail = a.detail }, rw (r, n) refl, r)

  first_unusable-Found :
      (rs : List ModalityAvailability) (after : Option Unavailable)
      → All IsRecorded rs
      → Found rs after
  first_unusable-Found [] after h = inl (refl, λ a i. elim i [ ])
  first_unusable-Found (a ∷ rs) after h = elim (Bool-cases (concerns m w a && not a.is_usable)) [
    | inl e ↦
        let (u, k, r) = as_unavailable-ok a h.0 (ground (arith, e)) in
        inr (u, rw (e, k) refl, (a, inl refl, ground (arith, e), ground (arith, e), r))
    | inr e ↦ elim (first_unusable-Found rs after h.1) [
      | inl (k, g) ↦
          inl (rw e k, λ b i c. elim i [ inl f ↦ ground (arith, e, f, c) | inr j ↦ g b j c ])
      | inr (u, k, (b, i, c, n, r)) ↦ inr (u, rw e k, (b, inr i, c, n, r))
    ]
  ]

  every_concerned :
      (rs : List ModalityAvailability)
      → ((a : ModalityAvailability) → In a rs → concerns m w a ≡ true → a.is_usable ≡ true)
      → all (λ a. a.is_usable) (keep (concerns m w) rs) ≡ true
  every_concerned [] f = refl
  every_concerned (a ∷ rs) f = elim (Bool-cases (concerns m w a)) [
    | inl e ↦ rw (e, f a (inl refl) e) (every_concerned rs (λ b i. f b (inr i)))
    | inr e ↦ rw e (every_concerned rs (λ b i. f b (inr i)))
  ]

  one_concerned :
      (rs : List ModalityAvailability) (a : ModalityAvailability)
      → In a rs
      → concerns m w a ≡ true
      → a.is_usable ≡ false
      → all (λ b. b.is_usable) (keep (concerns m w) rs) ≡ false
  one_concerned [] a i c n = elim i [ ]
  one_concerned (b ∷ rs) a (inl e) c n =
      rw (subst (λ x. concerns m w x ≡ true) e c, subst (λ x. x.is_usable ≡ false) e n) refl
  one_concerned (b ∷ rs) a (inr i) c n = ground (arith, one_concerned rs a i c n)

  unconcerned :
      (rs : List ModalityAvailability)
      → any (λ a. a.modality == m) rs ≡ false
      → keep (concerns m w) rs ≡ []
  unconcerned [] e = refl
  unconcerned (a ∷ rs) e = ground (arith, e, unconcerned rs)

  all_usable_none :
      (rs : List ModalityAvailability)
      → all (λ a. a.is_usable) rs ≡ true
      → all_usable rs ≡ false
      → rs ≡ []
  all_usable_none [] h k = refl
  all_usable_none (a ∷ rs) h k = ground (arith, h, k)

  every_usable :
      (rs : List ModalityAvailability) → all_usable rs ≡ true → all (λ a. a.is_usable) rs ≡ true
  every_usable [] h = refl
  every_usable (a ∷ rs) h = h

  explained_usable :
      (rs : List ModalityAvailability) (o : Option Unavailable)
      → Explains rs o
      → all_usable (keep (concerns m w) rs) ≡ true
      → o ≡ none
  explained_usable rs none x e = refl
  explained_usable rs (some u) (inl (a, i, c, n, k)) e =
      ground (arith, one_concerned rs a i c n, every_usable (keep (concerns m w) rs) e)
  explained_usable rs (some u) (inr (k, v)) e =
      ground (arith, subst (λ l. all_usable l ≡ true) (unconcerned rs k) e)

  explained_nothing :
      (rs : List ModalityAvailability) (o : Option Unavailable)
      → Explains rs o
      → any (λ a. a.modality == m) rs ≡ true
      → keep (concerns m w) rs ≡ []
      → o ≡ none
  explained_nothing rs none x h e = refl
  explained_nothing rs (some u) (inl (a, i, c, n, k)) h e =
      ground (arith, subst (λ l. all (λ b. b.is_usable) l ≡ false) e (one_concerned rs a i c n))
  explained_nothing rs (some u) (inr (k, v)) h e = ground (arith, k, h)

  unexplained_none :
      (rs : List ModalityAvailability)
      → Explains rs none
      → all_usable (keep (concerns m w) rs) ≡ false
      → (any (λ a. a.modality == m) rs ≡ true) × (keep (concerns m w) rs ≡ [])
  unexplained_none rs (f, c) n =
      (c, all_usable_none (keep (concerns m w) rs) (every_concerned rs f) n)

module _ {F : Type 0} (r : QualityReport F) (m : Modality) (w : Interval) where
  -- On a report whose records came from their constructor, asking why a modality cannot serve a
  -- window never raises. The answer is a reason exactly when a record that overlaps the window is
  -- not usable, whose reason it is, or the modality has no record at all.
  pub unavailability_for-Explains :
      All IsRecorded r.availability
      → (o : Option Unavailable) × (unavailability_for r m w ≡ ok o) × Explains m w r.availability o
  unfolding unavailability_for
  unavailability_for-Explains h = elim (Bool-cases (any (λ a. a.modality == m) r.availability)) [
    | inl e ↦ elim (first_unusable-Found m w r.availability none h) [
      | inl (k, f) ↦ (none, rw e k, (f, e))
      | inr (u, k, x) ↦ (some u, rw e k, inl x)
    ]
    | inr e ↦
        let u : Unavailable = record { reason = modality_not_captured; detail = "" } in
        elim (first_unusable-Found m w r.availability (some u) h) [
          | inl (k, f) ↦ (some u, rw e k, inr (e, refl))
          | inr (v, k, x) ↦ (some v, rw e k, inl x)
        ]
  ]

  -- On a report whose records came from their constructor, a window over which a modality is usable
  -- has no unavailability to give.
  pub usable_unexplained :
      All IsRecorded r.availability → is_usable r m w ≡ true → unavailability_for r m w ≡ ok none
  unfolding is_usable
  usable_unexplained h e =
      let (o, k, x) = unavailability_for-Explains h in
      k ∙ ap ok (explained_usable m w r.availability o x e)

  -- On a report whose records came from their constructor, a window is not usable and yet no reason is
  -- given exactly when the modality has records and none of them overlaps the window.
  unexplained_iff :
      All IsRecorded r.availability
      → ((is_usable r m w ≡ false) × (unavailability_for r m w ≡ ok none)) ↔ (
          (any (λ a. a.modality == m) r.availability ≡ true)
          × (keep (concerns m w) r.availability ≡ []))
  unfolding is_usable
  unexplained_iff h =
      let (o, k, x) = unavailability_for-Explains h in
      (
        λ (n, e).
            let q : o ≡ none = ground (arith, k, e) in
            unexplained_none m w r.availability (subst (Explains m w r.availability) q x) n,
        λ (c, e). (rw e refl, k ∙ ap ok (explained_nothing m w r.availability o x c e)),
      )

  -- One answer says that the modality can serve the window and the other gives a reason why it cannot,
  -- or the first says that it cannot and the other gives no reason.
  abbrev pub Disagree : Type 0
  Disagree =
      ((is_usable r m w ≡ true) × ((u : Unavailable) × (unavailability_for r m w ≡ ok (some u))))
      ⊎ ((is_usable r m w ≡ false) × (unavailability_for r m w ≡ ok none))

  -- On a report in which each record has a reason exactly when it is not usable, as its constructor
  -- ensures, `is_usable` and `unavailability_for` contradict each other exactly when the modality has
  -- records and none of them overlaps the window. A contradiction is one where usable comes with a reason,
  -- or not usable without one.
  pub disagree_iff :
      All IsRecorded r.availability
      → Disagree ↔ (
          (any (λ a. a.modality == m) r.availability ≡ true)
          × (keep (concerns m w) r.availability ≡ []))
  disagree_iff h = (
    λ d. elim d [
      | inl (y, (u, z)) ↦ ground (arith, usable_unexplained h y, z)
      | inr x ↦ (unexplained_iff h).0 x
    ],
    λ c. inr ((unexplained_iff h).1 c),
  )
