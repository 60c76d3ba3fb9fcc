-- ===== src/Evidence/Cooccurrence/Pairs.antt =====
-- Which pairs `correlate` emits.
use oratoria_engine.Prelude.{
  ◌≤◌, ◌≡◌, ◌↔◌, refl, ap, subst, ◌∙◌, inl, inr, List, [], ◌∷◌, ◌++◌, arith, leb, Bool-cases, In,
  In-append, In-append_left, In-append_right, In-sort,
}
use oratoria_engine.Shared.Errors.{ok}
use oratoria_engine.Shared.Timeline.{gap_to}
use oratoria_engine.Evidence.Cooccurrence.{
  FusionWindow, MultimodalCooccurrence, TimedEvent, cooccurrence, pairs_of, all_pairs, correlate,
  ordered, le_event,
}

-- What pairing `s` with `v` records.
abbrev pub pair_of : FusionWindow → TimedEvent → TimedEvent → MultimodalCooccurrence
pair_of w s v = record {
  speech_event_id = s.id;
  visual_event_id = v.id;
  temporal_distance_ms = gap_to s.interval v.interval;
  window = w;
}

-- `p` pairs an event of `ss` with one of `vs` whose gap lies in the window.
abbrev pub IsPairOf :
    FusionWindow → List TimedEvent → List TimedEvent → MultimodalCooccurrence → Type 0
IsPairOf w ss vs p =
    (s : TimedEvent) × (v : TimedEvent) × In s ss
    × In v vs
    × (gap_to s.interval v.interval ≤ w.width_ms)
    × (p ≡ pair_of w s v)

module _ (w : FusionWindow) where
  pairs_of-ok :
      (s : TimedEvent) (vs : List TimedEvent)
      → (ps : List MultimodalCooccurrence) × (pairs_of w s vs ≡ ok ps)
        × ((p : MultimodalCooccurrence)
            → In p ps ↔ (
                (v : TimedEvent) × In v vs
                × (gap_to s.interval v.interval ≤ w.width_ms)
                × (p ≡ pair_of w s v)))
  unfolding pairs_of cooccurrence
  pairs_of-ok s [] = ([], refl, λ p. (λ h. elim h [ ], λ (v, h, g, e). elim h [ ]))
  pairs_of-ok s (v ∷ vs) =
      let (ps, q, m) = pairs_of-ok s vs in
      elim (Bool-cases (leb (gap_to s.interval v.interval) w.width_ms)) [
        | inl b ↦ (
          pair_of w s v ∷ ps,
          ground (arith, b, q),
          λ p. (
            λ h. elim h [
              | inl e ↦ (v, inl refl, ground (arith, b), e)
              | inr i ↦ let (x, ix, g, e) = (m p).0 i in (x, inr ix, g, e)
            ],
            λ (x, ix, g, e). elim ix [
              | inl f ↦ inl (e ∙ ap (pair_of w s) f)
              | inr i ↦ inr ((m p).1 (x, i, g, e))
            ],
          ),
        )
        | inr b ↦ (
          ps,
          ground (arith, b, q),
          λ p. (
            λ i. let (x, ix, g, e) = (m p).0 i in (x, inr ix, g, e),
            λ (x, ix, g, e). elim ix [
              | inl f ↦
                  ground (arith, b, g, subst (λ t. gap_to s.interval t.interval ≤ w.width_ms) f g)
              | inr i ↦ (m p).1 (x, i, g, e)
            ],
          ),
        )
      ]

  all_pairs-ok :
      (ss vs : List TimedEvent)
      → (ps : List MultimodalCooccurrence) × (all_pairs w ss vs ≡ ok ps)
        × ((p : MultimodalCooccurrence) → In p ps ↔ IsPairOf w ss vs p)
  unfolding all_pairs
  all_pairs-ok [] vs = ([], refl, λ p. (λ h. elim h [ ], λ (s, v, h, iv, g, e). elim h [ ]))
  all_pairs-ok (s ∷ ss) vs =
      let (ps, q, m) = pairs_of-ok s vs in
      let (qs, r, n) = all_pairs-ok ss vs in
      (
        ps ++ qs,
        rw (q, r),
        λ p. (
          λ i. elim (In-append p ps qs i) [
            | inl a ↦ let (v, iv, g, e) = (m p).0 a in (s, v, inl refl, iv, g, e)
            | inr b ↦ let (x, v, ix, iv, g, e) = (n p).0 b in (x, v, inr ix, iv, g, e)
          ],
          λ (x, v, ix, iv, g, e). elim ix [
            | inl f ↦ In-append_left p ps qs (
                (m p).1 (
                  v,
                  iv,
                  subst (λ t. gap_to t.interval v.interval ≤ w.width_ms) f g,
                  e ∙ ap (λ t. pair_of w t v) f,
                ))
            | inr j ↦ In-append_right p ps qs ((n p).1 (x, v, j, iv, g, e))
          ],
        ),
      )

  -- Correlation always succeeds: for any speech events, visual events and window it returns a
  -- list, and a co-occurrence stands in that list exactly when it pairs one of the speech events
  -- with one of the visual events, the gap between the two is at most the window's width, and it
  -- records that gap, the two identifiers and the window.
  pub correlate-ok :
      (speech visual : List TimedEvent)
      → (ps : List MultimodalCooccurrence) × (correlate speech visual w ≡ ok ps)
        × ((p : MultimodalCooccurrence) → In p ps ↔ IsPairOf w speech visual p)
  unfolding correlate ordered
  correlate-ok speech visual =
      let (ps, q, m) = all_pairs-ok (ordered speech) (ordered visual) in
      (
        ps,
        q,
        λ p. (
          λ i.
              let (s, v, is, iv, g, e) = (m p).0 i in
              (s, v, (In-sort le_event s speech).0 is, (In-sort le_event v visual).0 iv, g, e),
          λ (s, v, is, iv, g, e).
              (m p).1
                (s, v, (In-sort le_event s speech).1 is, (In-sort le_event v visual).1 iv, g, e),
        ),
      )
