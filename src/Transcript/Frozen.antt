-- ===== src/Transcript/Frozen.antt =====
-- Replacing the revisable tail: `Transcript.with_provisional`.
use oratoria_engine.Prelude.{
  ℕ, ◌≤◌, ◌<◌, ◌≡◌, ◌↔◌, ◌⊎◌, inl, inr, refl, ap, sym, subst, ◌∙◌, false, List, [], ◌∷◌, ◌++◌,
  arith, ltb, keep, keep-append, keep-sort, keep-IsSorted, append_nil, All, In, In-append,
  In-append_left, In-append_right, In-sort, sort, sort_sorted, sort-IsSorted, IsSorted, IsOrder,
  Bool-cases,
}
use oratoria_engine.Prelude.Text.{leb_text_total, leb_text_trans}
use oratoria_engine.Prelude.Sort.{All-sort}
use oratoria_engine.Prelude.Shuffle.{Shuffled, IsKeyed, sort-Shuffled}
use oratoria_engine.Shared.Errors.{Result-cases, ok, raised, transcript_violation}
use oratoria_engine.Transcript.{
  WordToken, Transcript, is_final, le_token, final_tokens, finalized_frontier, check_fresh,
  with_provisional, build,
}

module _ {C : Type 0} where
  pub le_token-IsOrder : IsOrder (le_token {C = C})
  unfolding le_token
  le_token-IsOrder = record {
    total = λ x y. ground (arith, leb_text_total x.id y.id);
    trans = λ x y z h k. ground (arith, h, k, leb_text_trans x.id y.id z.id);
  }

  abbrev pub StartsFrom : ℕ → WordToken C → Type 0
  StartsFrom n t = n ≤ t.interval.start.ms

  abbrev StartsBefore : ℕ → WordToken C → Type 0
  StartsBefore n t = t.interval.start.ms < n

  abbrev pub IsProvisional : WordToken C → Type 0
  IsProvisional t = is_final t ≡ false

  pub check_fresh-ok :
      (n : ℕ) (ts : List (WordToken C)) → All (StartsFrom n) ts → check_fresh n ts ≡ ok tt
  check_fresh-ok n [] h = refl
  check_fresh-ok n (t ∷ ts) h = ground (arith, h, check_fresh-ok n ts h.1)

  check_fresh_refuses :
      (n : ℕ) (ts : List (WordToken C)) (t : WordToken C)
      → In t ts
      → t.interval.start.ms < n
      → check_fresh n ts ≡ raised transcript_violation
  check_fresh_refuses n [] t i h = elim i [ ]
  check_fresh_refuses n (u ∷ ts) t (inl e) h = ground (arith, subst (StartsBefore n) e h)
  check_fresh_refuses n (u ∷ ts) t (inr i) h = ground (arith, check_fresh_refuses n ts t i h)

  check_fresh_sound :
      (n : ℕ) (ts : List (WordToken C)) → check_fresh n ts ≡ ok tt → All (StartsFrom n) ts
  check_fresh_sound n [] h = tt
  check_fresh_sound n (t ∷ ts) h = elim (Bool-cases (ltb t.interval.start.ms n)) [
    | inl b ↦ ground (arith, b, h)
    | inr b ↦ (ground (arith, b), check_fresh_sound n ts (ground (arith, b, h)))
  ]

  keep_none : (ts : List (WordToken C)) → All IsProvisional ts → keep is_final ts ≡ []
  keep_none [] h = refl
  keep_none (t ∷ ts) h = rw (h.0) (keep_none ts h.1)

  keep_twice : (ts : List (WordToken C)) → keep is_final (keep is_final ts) ≡ keep is_final ts
  keep_twice [] = refl
  keep_twice (t ∷ ts) = ground (arith, keep_twice ts)

  module _ (tr : Transcript C) (incoming : List (WordToken C)) where
    abbrev kept : List (WordToken C)
    kept = keep is_final tr.tokens

    abbrev fresh : List (WordToken C)
    fresh = sort le_token incoming

    abbrev AreAhead : Type 0
    AreAhead = All (StartsFrom (finalized_frontier tr).ms) incoming

    -- When every incoming token starts at or after the frontier, the new tail is accepted: the
    -- result is in the canonical order and holds the final tokens and the incoming ones, no others.
    pub with_provisional-ok :
        AreAhead
        → (tr' : Transcript C) × (with_provisional tr incoming ≡ ok tr')
          × IsSorted le_token tr'.tokens
          × ((t : WordToken C) → In t tr'.tokens ↔ (In t (final_tokens tr) ⊎ In t incoming))
    unfolding with_provisional final_tokens
    with_provisional-ok h = (
      record { tokens = sort le_token (kept ++ fresh) },
      rw
          (check_fresh-ok (finalized_frontier tr).ms fresh
            (All-sort le_token (StartsFrom (finalized_frontier tr).ms) incoming h))
          refl,
      sort-IsSorted le_token-IsOrder (kept ++ fresh),
      λ t. (
        λ i. elim (In-append t kept fresh ((In-sort le_token t (kept ++ fresh)).0 i)) [
          | inl a ↦ inl a
          | inr b ↦ inr ((In-sort le_token t incoming).0 b)
        ],
        λ i. (In-sort le_token t (kept ++ fresh)).1 (elim i [
          | inl a ↦ In-append_left t kept fresh a
          | inr b ↦ In-append_right t kept fresh ((In-sort le_token t incoming).1 b)
        ]),
      ),
    )

    -- One incoming token that starts before the frontier is enough for the whole tail to be refused.
    pub with_provisional_refuses :
        (t : WordToken C)
        → In t incoming
        → t.interval.start.ms < (finalized_frontier tr).ms
        → with_provisional tr incoming ≡ raised transcript_violation
    unfolding with_provisional
    with_provisional_refuses t i h =
        rw
          (check_fresh_refuses (finalized_frontier tr).ms fresh t
            ((In-sort le_token t incoming).1 i) h)
          refl

    pub with_provisional_lem :
        (tr' : Transcript C)
        → with_provisional tr incoming ≡ ok tr'
        → (check_fresh (finalized_frontier tr).ms fresh ≡ ok tt)
          × (sort le_token (kept ++ fresh) ≡ tr'.tokens)
    unfolding with_provisional
    with_provisional_lem tr' h =
        elim (Result-cases (check_fresh (finalized_frontier tr).ms fresh)) [
          | inl (a, e) ↦ (e, ground (arith, e, h))
          | inr (a, e) ↦ ground (arith, e, h)
        ]

    final_in_tail :
        IsSorted le_token tr.tokens
        → All IsProvisional incoming
        → keep is_final (sort le_token (kept ++ fresh)) ≡ kept
    final_in_tail s p =
        keep-sort le_token-IsOrder is_final (kept ++ fresh)
        ∙ rw
            (
              keep-append is_final kept fresh,
              keep_twice tr.tokens,
              keep_none fresh (All-sort le_token IsProvisional incoming p),
              append_nil kept,
            )
            (sort_sorted le_token-IsOrder kept
              (keep-IsSorted le_token-IsOrder is_final tr.tokens s))

    -- A new tail never touches what is final: from a transcript in the canonical order, when it is
    -- accepted and its tokens are provisional, the final tokens are the same ones in the same order.
    pub with_provisional-frozen :
        (tr' : Transcript C)
        → IsSorted le_token tr.tokens
        → All IsProvisional incoming
        → with_provisional tr incoming ≡ ok tr'
        → final_tokens tr' ≡ final_tokens tr
    unfolding with_provisional final_tokens
    with_provisional-frozen tr' s p h =
        ap (keep is_final) (sym (with_provisional_lem tr' h).1) ∙ final_in_tail s p

module _ {C : Type 0} (tr : Transcript C) where
  -- A transcript depends on its tokens and not on the order they come in: when the incoming tokens
  -- are rearranged, and no two different ones agree in start, end and identifier, `build` gives
  -- the same transcript, and so does a new tail, refusal included.
  pub with_provisional_order_free :
      (ts ts' : List (WordToken C))
      → Shuffled ts ts'
      → IsKeyed le_token ts
      → (build ts ≡ build ts') × (with_provisional tr ts ≡ with_provisional tr ts')
  unfolding with_provisional build
  with_provisional_order_free ts ts' s k =
      let same = sort-Shuffled le_token le_token-IsOrder s k in
      (ap (λ l. record { tokens = l }) same, rw same refl)
