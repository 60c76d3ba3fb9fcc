-- ===== src/Transcript/Promotion.antt =====
-- Moving the frontier: `Transcript.finalize_through`.
use oratoria_engine.Prelude.{
  ℕ, ◌≤◌, ◌<◌, ◌≡◌, inl, inr, refl, ap, sym, ◌∙◌, Bool, true, false, ◌||◌, List, [], ◌∷◌, map,
  arith, leb, keep, All, In, IsSorted, string_eq, ◌==◌, if◌then◌else◌, Bool-cases,
}
use oratoria_engine.Shared.Errors.{ok, raised, transcript_violation}
use oratoria_engine.Shared.Timeline.{MonotonicTime}
use oratoria_engine.Transcript.{
  TokenStatus, final, provisional, is_same, WordToken, Transcript, word_token, is_final, finalize,
  le_token, latest_end, final_tokens, finalized_frontier, promote, finalize_through,
}

status_final : (s : TokenStatus) → is_same s final ≡ true → s ≡ final
status_final provisional h = ground (arith, h)
status_final final h = refl

module _ {C : Type 0} where
  -- What the constructor guarantees.
  abbrev pub IsSpoken : WordToken C → Type 0
  IsSpoken t = (t.raw_text == "") ≡ false

  abbrev sealed : WordToken C → WordToken C
  sealed t = record t { status = final }

  -- The token that ends by the boundary is final, and nothing else about it changes.
  abbrev pub settle : ℕ → WordToken C → WordToken C
  settle boundary t = if leb t.interval.end.ms boundary then sealed t else t

  finalize_at :
      (t : WordToken C) (s : TokenStatus) → t.status ≡ s → IsSpoken t → finalize t ≡ ok (sealed t)
  unfolding finalize word_token is_final
  finalize_at t provisional e h = rw (e, h) refl
  finalize_at t final e h = rw e refl

  finalize-sealed : (t : WordToken C) → IsSpoken t → finalize t ≡ ok (sealed t)
  finalize-sealed t h = finalize_at t t.status refl h

  pub promote-settle :
      (b : ℕ) (ts : List (WordToken C)) → All IsSpoken ts → promote b ts ≡ ok (map (settle b) ts)
  promote-settle b [] h = refl
  promote-settle b (t ∷ ts) h = elim (Bool-cases (leb t.interval.end.ms b)) [
    | inl e ↦ rw (e, finalize-sealed t h.0, promote-settle b ts h.1) refl
    | inr e ↦ rw (e, promote-settle b ts h.1) refl
  ]

  is_final-settle :
      (b : ℕ) (t : WordToken C) → is_final (settle b t) ≡ (leb t.interval.end.ms b || is_final t)
  unfolding is_final
  is_final-settle b t = ground arith

  end-settle : (b : ℕ) (t : WordToken C) → (settle b t).interval ≡ t.interval
  end-settle b t = ground arith

  -- The latest end at or before the boundary.
  abbrev pub ends_by : ℕ → WordToken C → Bool
  ends_by b t = leb t.interval.end.ms b

  latest_end-settle :
      (b : ℕ) (ts : List (WordToken C))
      → latest_end (keep is_final ts) ≤ b
      → latest_end (keep is_final (map (settle b) ts)) ≡ latest_end (keep (ends_by b) ts)
  latest_end-settle b [] h = refl
  latest_end-settle b (t ∷ ts) h = elim (Bool-cases (ends_by b t)) [
    | inl e ↦ ground (arith, e, h, is_final-settle b t, latest_end-settle b ts)
    | inr e ↦ ground (arith, e, h, is_final-settle b t, latest_end-settle b ts)
  ]

  latest_end-bound : (b : ℕ) (ts : List (WordToken C)) → latest_end (keep (ends_by b) ts) ≤ b
  latest_end-bound b [] = omega arith
  latest_end-bound b (t ∷ ts) = ground (arith, latest_end-bound b ts)

  latest_end-grows :
      (b : ℕ) (ts : List (WordToken C))
      → latest_end (keep is_final ts) ≤ b
      → latest_end (keep is_final ts) ≤ latest_end (keep (ends_by b) ts)
  latest_end-grows b [] h = omega arith
  latest_end-grows b (t ∷ ts) h = ground (arith, h, latest_end-grows b ts)

  le_token-settle : (b : ℕ) (t u : WordToken C) → le_token (settle b t) (settle b u) ≡ le_token t u
  unfolding le_token
  le_token-settle b t u = elim (Bool-cases (ends_by b t)) [
    | inl e ↦ elim (Bool-cases (ends_by b u)) [ inl f ↦ rw (e, f) refl | inr f ↦ rw (e, f) refl ]
    | inr e ↦ elim (Bool-cases (ends_by b u)) [ inl f ↦ rw (e, f) refl | inr f ↦ rw (e, f) refl ]
  ]

  below-settle :
      (b : ℕ) (t : WordToken C) (ts : List (WordToken C))
      → All (λ u. le_token t u ≡ true) ts
      → All (λ u. le_token (settle b t) u ≡ true) (map (settle b) ts)
  below-settle b t [] h = tt
  below-settle b t (u ∷ ts) h = (le_token-settle b t u ∙ h.0, below-settle b t ts h.1)

  pub map-settle-IsSorted :
      (b : ℕ) (ts : List (WordToken C))
      → IsSorted le_token ts
      → IsSorted le_token (map (settle b) ts)
  map-settle-IsSorted b [] h = tt
  map-settle-IsSorted b (t ∷ ts) h = (below-settle b t ts h.0, map-settle-IsSorted b ts h.1)

  pub map-settle-IsSpoken :
      (b : ℕ) (ts : List (WordToken C)) → All IsSpoken ts → All IsSpoken (map (settle b) ts)
  map-settle-IsSpoken b [] h = tt
  map-settle-IsSpoken b (t ∷ ts) h = elim (Bool-cases (ends_by b t)) [
    | inl e ↦ rw e (h.0, map-settle-IsSpoken b ts h.1)
    | inr e ↦ rw e (h.0, map-settle-IsSpoken b ts h.1)
  ]

  settle_final : (b : ℕ) (t : WordToken C) → is_final t ≡ true → settle b t ≡ t
  unfolding is_final
  settle_final b t h = elim (Bool-cases (ends_by b t)) [
    | inl e ↦ simp e (ap (λ s. record t { status = s }) (sym (status_final t.status h)))
    | inr e ↦ rw e refl
  ]

  pub keep-settle-final :
      (b : ℕ) (a : WordToken C) (ts : List (WordToken C))
      → In a (keep is_final ts)
      → In a (keep is_final (map (settle b) ts))
  keep-settle-final b a [] i = i
  keep-settle-final b a (t ∷ ts) i = elim (Bool-cases (is_final t)) [
    | inl e ↦ ground (arith, e, i, settle_final b t e, keep-settle-final b a ts)
    | inr e ↦ ground (arith, e, i, keep-settle-final b a ts)
  ]

  module _ (tr : Transcript C) (boundary : MonotonicTime) where
    -- A boundary at or after the frontier is accepted when no token is empty. The result is the
    -- same tokens in the same places, those that end by the boundary final and the others as they
    -- were, and the new frontier is the latest end at or before the boundary, so it is never behind
    -- the old one and never past the boundary.
    pub finalize_through-ok :
        All IsSpoken tr.tokens
        → (finalized_frontier tr).ms ≤ boundary.ms
        → (tr' : Transcript C) × (finalize_through tr boundary ≡ ok tr')
          × (tr'.tokens ≡ map (settle boundary.ms) tr.tokens)
          × ((finalized_frontier tr').ms ≡ latest_end (keep (ends_by boundary.ms) tr.tokens))
          × ((finalized_frontier tr).ms ≤ (finalized_frontier tr').ms)
          × ((finalized_frontier tr').ms ≤ boundary.ms)
    unfolding finalize_through finalized_frontier final_tokens
    finalize_through-ok h f =
        let e = latest_end-settle boundary.ms tr.tokens f in
        (
          record { tokens = map (settle boundary.ms) tr.tokens },
          rw (promote-settle boundary.ms tr.tokens h) (ground (arith, f)),
          refl,
          e,
          omega (arith, e, latest_end-grows boundary.ms tr.tokens f),
          omega (arith, e, latest_end-bound boundary.ms tr.tokens),
        )

    -- A boundary behind the frontier is refused.
    pub finalize_through_refuses :
        boundary.ms < (finalized_frontier tr).ms
        → finalize_through tr boundary ≡ raised transcript_violation
    unfolding finalize_through
    finalize_through_refuses h = ground (arith, h)
