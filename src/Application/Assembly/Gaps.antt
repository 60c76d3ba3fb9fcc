-- ===== src/Application/Assembly/Gaps.antt =====
-- The gaps between neighbouring words are the silences of the words.
use oratoria_engine.Prelude.{
  ℕ, ◌+◌, ◌≤◌, ◌<◌, Bool, true, false, le→leb, List, [], ◌∷◌, ◌++◌, leb, if◌then◌else◌, All, In,
  In-append, In-append_left, In-append_right, ◌≡◌, ◌⊎◌, inl, inr, refl, ap, sym, ◌∙◌, arith,
}
use oratoria_engine.Transcript.{WordToken}

module _ {C : Type 0} where
  -- Words that follow one another.
  abbrev pub InTurn : List (WordToken C) → Type 0
  InTurn [] = Unit
  InTurn (t ∷ ts) =
      (t.interval.start.ms ≤ t.interval.end.ms)
      × All (λ u. t.interval.end.ms ≤ u.interval.start.ms) ts
      × InTurn ts

  -- A stretch from the end of a word to the start of a word, at least as long as the threshold, that
  -- no word reaches into.
  abbrev pub IsSilence : ℕ → List (WordToken C) → ℕ × ℕ → Type 0
  IsSilence threshold_ms ts s =
      ((t : WordToken C) × In t ts × (t.interval.end.ms ≡ s.0))
      × ((u : WordToken C) × In u ts × (u.interval.start.ms ≡ s.1))
      × (s.0 + threshold_ms ≤ s.1)
      × All (λ v. (v.interval.end.ms ≤ s.0) ⊎ (s.1 ≤ v.interval.start.ms)) ts

  -- The gaps between neighbours.
  abbrev pub gap_at : ℕ → WordToken C → WordToken C → List (ℕ × ℕ)
  gap_at threshold_ms t u =
      if leb (t.interval.end.ms + threshold_ms) u.interval.start.ms
      then (t.interval.end.ms, u.interval.start.ms) ∷ []
      else []

  unfoldable pub gaps : ℕ → List (WordToken C) → List (ℕ × ℕ)
  gaps threshold_ms [] = []
  gaps threshold_ms (t ∷ []) = []
  gaps threshold_ms (t ∷ u ∷ rest) = gap_at threshold_ms t u ++ gaps threshold_ms (u ∷ rest)

gap_if-In : (b : Bool) (x s : ℕ × ℕ) → In s (if b then x ∷ [] else []) → (b ≡ true) × (s ≡ x)
gap_if-In true x s (inl e) = (refl, e)
gap_if-In true x s (inr i) = elim i [ ]
gap_if-In false x s i = elim i [ ]

module _ {C : Type 0} (th : ℕ) (positive : 0 < th) where
  -- Every word of the rest starts at or after a point that the first of them does not precede.
  later_starts :
      (x : ℕ) (ts : List (WordToken C)) (v : WordToken C)
      → All (λ u. x ≤ u.interval.start.ms) ts
      → In v ts
      → x ≤ v.interval.start.ms
  later_starts x [] v h i = elim i [ ]
  later_starts x (t ∷ ts) v (h, hs) (inl e) = ground (arith, ap (λ w. w.interval.start.ms) e)
  later_starts x (t ∷ ts) v (h, hs) (inr i) = later_starts x ts v hs i

  starts_after :
      (a x y : ℕ) (ts : List (WordToken C))
      → x ≤ y
      → All (λ u. y ≤ u.interval.start.ms) ts
      → All (λ v. (v.interval.end.ms ≤ a) ⊎ (x ≤ v.interval.start.ms)) ts
  starts_after a x y [] h k = tt
  starts_after a x y (t ∷ ts) h (k, ks) = (inr (omega arith), starts_after a x y ts h ks)

  gap_at-In :
      (t u : WordToken C) (s : ℕ × ℕ)
      → In s (gap_at th t u)
      → (t.interval.end.ms ≡ s.0) × (u.interval.start.ms ≡ s.1) × (s.0 + th ≤ s.1)
  gap_at-In t u s i =
      let (e, p) =
        gap_if-In (leb (t.interval.end.ms + th) u.interval.start.ms)
          (t.interval.end.ms, u.interval.start.ms) s i in
      ground (arith, e, ap (λ q. q.0) p, ap (λ q. q.1) p)

  gap_at-makes :
      (t u : WordToken C) (s : ℕ × ℕ)
      → t.interval.end.ms ≡ s.0
      → u.interval.start.ms ≡ s.1
      → s.0 + th ≤ s.1
      → In s (gap_at th t u)
  gap_at-makes t u s p q h = rw (p, q, le→leb (s.0 + th) s.1 h) (inl refl)

  ends_known :
      (ts : List (WordToken C)) (v : WordToken C)
      → InTurn ts
      → In v ts
      → v.interval.start.ms ≤ v.interval.end.ms
  ends_known [] v h i = elim i [ ]
  ends_known (t ∷ ts) v (h, k, r) (inl e) =
      ground (arith, ap (λ w. w.interval.start.ms) e, ap (λ w. w.interval.end.ms) e)
  ends_known (t ∷ ts) v (h, k, r) (inr i) = ends_known ts v r i

  pub gaps_sound :
      (ts : List (WordToken C)) (s : ℕ × ℕ) → InTurn ts → In s (gaps th ts) → IsSilence th ts s
  unfolding gaps
  gaps_sound [] s r i = elim i [ ]
  gaps_sound (t ∷ []) s r i = elim i [ ]
  gaps_sound (t ∷ u ∷ rest) s (h, (k, ks), r) i =
      elim (In-append s (gap_at th t u) (gaps th (u ∷ rest)) i) [
        | inl here ↦
            let (a, b, c) = gap_at-In t u s here in
            (
              (t, inl refl, a),
              (u, inr (inl refl), b),
              c,
              (
                inl (omega (arith, a)),
                (
                  inr (omega (arith, b)),
                  starts_after s.0 s.1 u.interval.end.ms rest (omega (arith, b, r.0)) r.1,
                ),
              ),
            )
        | inr later ↦
            let (v, w, c, d) = gaps_sound (u ∷ rest) s r later in
            let e = later_starts t.interval.end.ms (u ∷ rest) v.0 (k, ks) v.1 in
            let f = ends_known (u ∷ rest) v.0 r v.1 in
            ((v.0, inr v.1, v.2), (w.0, inr w.1, w.2), c, (inl (omega (arith, v.2, e, f)), d))
      ]

  -- No word of the list ends before the first of them starts.
  floor :
      (t : WordToken C) (ts : List (WordToken C)) (v : WordToken C)
      → InTurn (t ∷ ts)
      → In v (t ∷ ts)
      → t.interval.start.ms ≤ v.interval.end.ms
  floor t ts v (h, k, r) (inl e) = ground (arith, ap (λ x. x.interval.end.ms) e)
  floor t ts v (h, k, r) (inr i) =
      omega (arith, later_starts t.interval.end.ms ts v k i, ends_known ts v r i)

  only : (t w : WordToken C) → In w (t ∷ []) → w ≡ t
  only t w (inl e) = e
  only t w (inr i) = elim i [ ]

  -- A silence that a second word has ended by begins at the end of a word other than the first.
  ender :
      (t u : WordToken C) (rest : List (WordToken C)) (s : ℕ × ℕ)
      → InTurn (t ∷ u ∷ rest)
      → ((v : WordToken C) × In v (t ∷ u ∷ rest) × (v.interval.end.ms ≡ s.0))
      → u.interval.end.ms ≤ s.0
      → (v : WordToken C) × In v (u ∷ rest) × (v.interval.end.ms ≡ s.0)
  ender t u rest s (h, (k, ks), r) (v, inl q, a) e =
      (u, inl refl, omega (arith, a, ap (λ x. x.interval.end.ms) q, r.0))
  ender t u rest s (h, (k, ks), r) (v, inr i, a) e = (v, i, a)

  starts_known :
      (u : WordToken C) (rest : List (WordToken C)) (w : WordToken C)
      → InTurn (u ∷ rest)
      → In w (u ∷ rest)
      → u.interval.start.ms ≤ w.interval.start.ms
  starts_known u rest w r (inl e) = omega (arith, ap (λ x. x.interval.start.ms) e)
  starts_known u rest w r (inr i) = omega (arith, r.0, later_starts u.interval.end.ms rest w r.1 i)

  -- A silence that no later word precedes lies between the first two words.
  neighbours :
      (t u : WordToken C) (rest : List (WordToken C)) (s : ℕ × ℕ)
      → InTurn (t ∷ u ∷ rest)
      → ((v : WordToken C) × In v (t ∷ u ∷ rest) × (v.interval.end.ms ≡ s.0))
      → ((w : WordToken C) × In w (u ∷ rest) × (w.interval.start.ms ≡ s.1))
      → s.0 + th ≤ s.1
      → s.1 ≤ u.interval.start.ms
      → In s (gap_at th t u)
  neighbours t u rest s (h, k, r) (v, inl q, a) (w, j, b) c e =
      gap_at-makes t u s (sym (ap (λ x. x.interval.end.ms) q) ∙ a)
        (omega (arith, starts_known u rest w r j, b)) c
  neighbours t u rest s (h, k, r) (v, inr i, a) (w, j, b) c e =
      absurd (omega (arith, floor u rest v r i, a))

  pub gaps_complete :
      (ts : List (WordToken C)) (s : ℕ × ℕ) → InTurn ts → IsSilence th ts s → In s (gaps th ts)
  unfolding gaps
  gaps_complete [] s r ((v, i, a), w, c, d) = elim i [ ]
  gaps_complete (t ∷ []) s r ((v, i, a), (w, j, b), c, d) =
      let p = floor t [] v r i in
      let q = only t w j in absurd (omega (arith, a, b, c, p, ap (λ x. x.interval.start.ms) q))
  gaps_complete (t ∷ u ∷ rest) s turn (v, w, c, (dt, (du, dr))) =
      let p = floor t (u ∷ rest) v.0 turn v.1 in
      elim w.1 [
        | inl q ↦ absurd (omega (arith, p, c, v.2, w.2, ap (λ x. x.interval.start.ms) q))
        | inr j ↦ elim du [
          | inl e ↦ In-append_right s (gap_at th t u) (gaps th (u ∷ rest)) (
              gaps_complete (u ∷ rest) s turn.2
                (ender t u rest s turn v e, (w.0, j, w.2), c, (inl e, dr)))
          | inr e ↦
              In-append_left s (gap_at th t u) (gaps th (u ∷ rest))
                (neighbours t u rest s turn v (w.0, j, w.2) c e)
        ]
      ]
