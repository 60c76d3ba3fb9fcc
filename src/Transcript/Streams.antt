-- ===== src/Transcript/Streams.antt =====
-- A transcript over a stream of hypotheses and boundaries, refused ones included.
use oratoria_engine.Prelude.{
  ℕ, map, All-append, All-keep, ◌≤◌, ◌≡◌, inl, inr, subst, sym, List, [], ◌∷◌, arith, ltb, All, In,
  IsSorted, keep, Bool-cases, sort, ◌++◌,
}
use oratoria_engine.Prelude.Sort.{All-sort, sort-IsSorted}
use oratoria_engine.Shared.Errors.{Result, Result-cases, ok, raised}
use oratoria_engine.Shared.Timeline.{MonotonicTime}
use oratoria_engine.Transcript.{
  WordToken, Transcript, le_token, final_tokens, finalized_frontier, with_provisional,
  finalize_through, is_final,
}
use oratoria_engine.Transcript.Frozen.{
  IsProvisional, with_provisional_lem, with_provisional-frozen, le_token-IsOrder,
}
use oratoria_engine.Transcript.Promotion.{
  IsSpoken, settle, finalize_through-ok, finalize_through_refuses, keep-settle-final,
  map-settle-IsSorted, map-settle-IsSpoken,
}

-- What a caller asks of a transcript.
pub data Op (C : Type 0) : Type 0 where
  tail : List (WordToken C) → Op C
  boundary : MonotonicTime → Op C

module _ {C : Type 0} where
  -- A transcript is immutable: a caller that is refused still has the one it had.
  abbrev pub kept_on_error : Transcript C → Result (Transcript C) → Transcript C
  kept_on_error tr (ok tr') = tr'
  kept_on_error tr (raised e) = tr

  abbrev pub step : Transcript C → Op C → Transcript C
  step tr (tail ts) = kept_on_error tr (with_provisional tr ts)
  step tr (boundary b) = kept_on_error tr (finalize_through tr b)

  abbrev pub run : Transcript C → List (Op C) → Transcript C
  run tr [] = tr
  run tr (o ∷ os) = run (step tr o) os

  -- What a recognizer sends: provisional tokens, none empty.
  abbrev pub IsHypothesis : Op C → Type 0
  IsHypothesis (tail ts) = All IsProvisional ts × All IsSpoken ts
  IsHypothesis (boundary b) = Unit

  abbrev pub IsWellFormed : Transcript C → Type 0
  IsWellFormed tr = IsSorted le_token tr.tokens × All IsSpoken tr.tokens

  -- What one step keeps: every final token stays as it is and the frontier does not go back.
  abbrev pub Extends : Transcript C → Transcript C → Type 0
  Extends tr tr' =
      ((t : WordToken C) → In t (final_tokens tr) → In t (final_tokens tr'))
      × ((finalized_frontier tr).ms ≤ (finalized_frontier tr').ms)

  Extends-refl : (tr : Transcript C) → Extends tr tr
  Extends-refl tr = (λ t i. i, omega arith)

  same_frontier :
      (tr tr' : Transcript C)
      → final_tokens tr' ≡ final_tokens tr
      → (finalized_frontier tr).ms ≤ (finalized_frontier tr').ms
  unfolding finalized_frontier
  same_frontier tr tr' e = rw e (omega arith)

  final_tokens-settle :
      (tr tr' : Transcript C) (b : ℕ)
      → tr'.tokens ≡ map (settle b) tr.tokens
      → (t : WordToken C) → In t (final_tokens tr)
      → In t (final_tokens tr')
  unfolding final_tokens
  final_tokens-settle tr tr' b e t i = rw e (keep-settle-final b t tr.tokens i)

  tail_keeps :
      (tr : Transcript C) (ts : List (WordToken C))
      → IsWellFormed tr
      → IsHypothesis (tail ts)
      → IsWellFormed (step tr (tail ts)) × Extends tr (step tr (tail ts))
  tail_keeps tr ts w h = elim (Result-cases (with_provisional tr ts)) [
    | inl (tr', e) ↦
        let sorted = (with_provisional_lem tr ts tr' e).1 in
        let frozen = with_provisional-frozen tr ts tr' w.0 h.0 e in
        rw e (
          (
            subst (IsSorted le_token) sorted
                (sort-IsSorted le_token-IsOrder (keep is_final tr.tokens ++ sort le_token ts)),
            subst (All IsSpoken) sorted (
                All-sort le_token IsSpoken (keep is_final tr.tokens ++ sort le_token ts) (
                  All-append IsSpoken (keep is_final tr.tokens) (sort le_token ts)
                    (All-keep IsSpoken is_final tr.tokens w.1)
                    (All-sort le_token IsSpoken ts h.1))),
          ),
          (λ t i. subst (In t) (sym frozen) i, same_frontier tr tr' frozen),
        )
    | inr (x, e) ↦ rw e (w, Extends-refl tr)
  ]

  boundary_keeps :
      (tr : Transcript C) (b : MonotonicTime)
      → IsWellFormed tr
      → IsWellFormed (step tr (boundary b)) × Extends tr (step tr (boundary b))
  boundary_keeps tr b w = elim (Bool-cases (ltb b.ms (finalized_frontier tr).ms)) [
    | inl l ↦ rw (finalize_through_refuses tr b (ground (arith, l))) (w, Extends-refl tr)
    | inr g ↦
        let (tr', e, t, f, m, l) = finalize_through-ok tr b w.1 (ground (arith, g)) in
        rw e (
          (
            subst (IsSorted le_token) (sym t) (map-settle-IsSorted b.ms tr.tokens w.0),
            subst (All IsSpoken) (sym t) (map-settle-IsSpoken b.ms tr.tokens w.1),
          ),
          (final_tokens-settle tr tr' b.ms t, m),
        )
  ]

  step_keeps :
      (tr : Transcript C) (o : Op C)
      → IsWellFormed tr
      → IsHypothesis o
      → IsWellFormed (step tr o) × Extends tr (step tr o)
  step_keeps tr (tail ts) w h = tail_keeps tr ts w h
  step_keeps tr (boundary b) w h = boundary_keeps tr b w

  -- Finalized history is never rewritten. Over any sequence of new tails and boundaries, refused
  -- ones included, from a well-formed transcript and with provisional tokens that are not empty,
  -- every token that is final before is final after, unchanged, the frontier has not gone back,
  -- and the transcript is still in order with no empty token.
  pub run-Extends :
      (tr : Transcript C) (os : List (Op C))
      → IsWellFormed tr
      → All IsHypothesis os
      → IsWellFormed (run tr os) × Extends tr (run tr os)
  run-Extends tr [] w h = (w, Extends-refl tr)
  run-Extends tr (o ∷ os) w h =
      let (w', (i, m)) = step_keeps tr o w h.0 in
      let (v, (j, n)) = run-Extends (step tr o) os w' h.1 in
      (v, (λ t a. j t (i t a), omega (arith, m, n)))
