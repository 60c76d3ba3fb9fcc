-- ===== src/Application/Coordinator/Degraded.antt =====
-- Notices of a failed modality.
use oratoria_engine.Prelude.{
  ℕ, ◌+◌, Bool, true, false, not, ◌&&◌, ◌||◌, Bool-cases, List, [], ◌∷◌, ◌++◌, contains, string_eq,
  ◌==◌, ◌≡◌, inl, inr, refl, ap, sym, ◌∙◌, arith,
}
use oratoria_engine.Shared.Provenance.{Modality, modality_eq}
use oratoria_engine.Transcript.{finalized_frontier}
use oratoria_engine.Application.Coordinator.{
  Live, Outbound, transcript_message, speech_message, degraded_message, quality_warning, degrade,
}

abbrev bit : Bool → ℕ
bit true = 1
bit false = 0

module _ {F : Type 0} where
  abbrev is_notice : Modality → Outbound F → Bool
  is_notice m (transcript_message b t l) = false
  is_notice m (speech_message b t l) = false
  is_notice m (degraded_message n t) = n == m
  is_notice m (quality_warning t l) = false

  -- How many notices of a modality were published.
  abbrev pub notices : Modality → List (Outbound F) → ℕ
  notices m [] = 0
  notices m (x ∷ xs) = bit (is_notice m x) + notices m xs

  notices-append :
      (m : Modality) (xs ys : List (Outbound F))
      → notices m (xs ++ ys) ≡ notices m xs + notices m ys
  notices-append m [] ys = omega arith
  notices-append m (x ∷ xs) ys = ground (arith, notices-append m xs ys)

  -- One failure after another.
  unfoldable pub fail_all : List Modality → Live F → Live F
  fail_all [] w = w
  fail_all (m ∷ ms) w = fail_all ms (degrade m w).1

  -- The same modality as one that was degraded before.
  shared_member :
      (m x : Modality) (w : Live F)
      → contains x w.degraded_modalities ≡ true
      → contains m w.degraded_modalities ≡ ((x == m) || contains m w.degraded_modalities)
  shared_member m x w h = elim (Bool-cases (x == m)) [
    | inl e ↦
        rw e (ap (λ k. contains k w.degraded_modalities) (sym ((modality_eq.beq_iff x m).0 e)) ∙ h)
    | inr e ↦ rw e refl
  ]

  shared_count :
      (m x : Modality) (w : Live F)
      → contains x w.degraded_modalities ≡ true
      → notices m w.published
        ≡ notices m w.published + bit ((x == m) && not (contains m w.degraded_modalities))
  shared_count m x w h = ground (arith, shared_member m x w h)

  fresh_count :
      (m x : Modality) (w : Live F)
      → contains x w.degraded_modalities ≡ false
      → notices m w.published + (bit (x == m) + 0)
        ≡ notices m w.published + bit ((x == m) && not (contains m w.degraded_modalities))
  fresh_count m x w h = elim (Bool-cases (x == m)) [
    | inl e ↦
        rw (e, ap (λ k. contains k w.degraded_modalities) (sym ((modality_eq.beq_iff x m).0 e)) ∙ h)
          (omega arith)
    | inr e ↦ rw e (omega arith)
  ]

  fail_once :
      (m x : Modality) (w : Live F)
      → (notices m (degrade x w).1.published
          ≡ notices m w.published + bit ((x == m) && not (contains m w.degraded_modalities)))
        × (contains m (degrade x w).1.degraded_modalities
            ≡ ((x == m) || contains m w.degraded_modalities))
  unfolding degrade
  fail_once m x w = elim (Bool-cases (contains x w.degraded_modalities)) [
    | inl h ↦ (rw h (shared_count m x w h), rw h (shared_member m x w h))
    | inr h ↦ (
      rw h (
          notices-append m w.published
            (degraded_message x (finalized_frontier w.transcript).ms ∷ [])
          ∙ fresh_count m x w h),
      rw h refl,
    )
  ]

  -- Of the failures of a modality only the first is published: the notices of it grow by one if it is
  -- among the failures and was not degraded before, and by none otherwise.
  pub notices-fail_all :
      (m : Modality) (ms : List Modality) (w : Live F)
      → notices m (fail_all ms w).published
        ≡ notices m w.published + bit (contains m ms && not (contains m w.degraded_modalities))
  unfolding fail_all
  notices-fail_all m [] w = ground arith
  notices-fail_all m (x ∷ ms) w =
      ground (arith, notices-fail_all m ms (degrade x w).1, fail_once m x w)
