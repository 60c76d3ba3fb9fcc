-- ===== src/Sessions/Sequencing/Arrivals.antt =====
-- The ledger against the plain list of the chunks that arrived.
use oratoria_engine.Prelude.{
  ℕ, zero, suc, ◌+◌, ◌≤◌, ◌<◌, ◌≡◌, refl, true, false, List, [], ◌∷◌, arith, ltb, eqb, contains,
  add, nat_eq, length, All, max, Bool-cases, inl, inr,
}
use oratoria_engine.Sessions.Sequencing.{
  ChunkLedger, new_ledger, accept, drain_rounds, drain_ahead, offer_number,
}
use oratoria_engine.Sessions.Sequencing.Gaps.{}
use oratoria_engine.Sessions.Sequencing.Missing.{IsNodup}

-- The ledger after some arrivals, the latest first.
unfoldable pub after : List ℕ → ChunkLedger
after [] = new_ledger
after (n ∷ ns) = (offer_number n (after ns)).1

-- One more than the highest number that arrived.
abbrev pub top : List ℕ → ℕ
top [] = 0
top (n ∷ ns) = max (top ns) (suc n)

-- What the ledger knows of the arrivals `ns`.
pub record Records (l : ChunkLedger) (ns : List ℕ) : Type 0 where
  pub seen : (n : ℕ) → contains n l.seen ≡ contains n ns
  pub expected : l.expected ≡ top ns
  pub below : All (λ m. m < l.expected) l.seen
  pub ahead : All (λ m. m < l.expected) l.seen_ahead
  pub nodup : IsNodup l.seen
  pub total : l.duplicates + length l.seen ≡ length ns

pub not_contains_above : (n : ℕ) (l : List ℕ) → All (λ m. m < n) l → contains n l ≡ false
not_contains_above n [] h = refl
not_contains_above n (m ∷ l) h = ground (arith, not_contains_above n l h.1)

-- `_drain_ahead` does nothing when no number that was seen ahead is the next one.
pub drain_ahead_idle :
    (l : ChunkLedger) → contains l.expected l.seen_ahead ≡ false → drain_ahead l ≡ l
unfolding drain_ahead
drain_ahead_idle l h = go (length l.seen_ahead)
  where
    go : (fuel : ℕ) → drain_rounds fuel l ≡ l
    go zero = refl
    go (suc fuel) = rw h

All-lt_mono : (l : List ℕ) (a b : ℕ) → a ≤ b → All (λ m. m < a) l → All (λ m. m < b) l
All-lt_mono [] a b h k = tt
All-lt_mono (m ∷ l) a b h k = (omega arith, All-lt_mono l a b h k.1)

All-add : (n : ℕ) (l : List ℕ) (b : ℕ) → n < b → All (λ m. m < b) l → All (λ m. m < b) (add n l)
All-add n l b h k = elim (Bool-cases (contains n l)) [ inl e ↦ rw e k | inr e ↦ rw e (h, k) ]

-- One more number is accepted.
pub accept-Records :
    (n : ℕ) (l : ChunkLedger) (ns : List ℕ)
    → Records l ns
    → contains n l.seen ≡ false
    → Records (accept n l) (n ∷ ns)
unfolding accept
accept-Records n l ns r e = record {
  seen = λ m. rw e (ground (arith, r.seen m));
  expected = ground (arith, r.expected);
  below =
      All-add n l.seen (max l.expected (suc n)) (omega arith)
        (All-lt_mono l.seen l.expected (max l.expected (suc n)) (omega arith) r.below);
  ahead = All-lt_mono l.seen_ahead l.expected (max l.expected (suc n)) (omega arith) r.ahead;
  nodup = rw e (e, r.nodup);
  total = rw e (ground (arith, r.total));
}

contains_below : (n b : ℕ) (l : List ℕ) → All (λ m. m < b) l → contains n l ≡ true → n < b
contains_below n b [] h e = absurd (ground arith)
contains_below n b (m ∷ l) h e = ground (arith, contains_below n b l h.1)

again-Records :
    (n : ℕ) (l : ChunkLedger) (ns : List ℕ)
    → Records l ns
    → contains n l.seen ≡ true
    → Records (record l { duplicates = l.duplicates + 1 }) (n ∷ ns)
again-Records n l ns r e = record {
  seen = λ m. ground (arith, r.seen m, r.seen n);
  expected = omega (arith, r.expected, contains_below n l.expected l.seen r.below e);
  below = r.below;
  ahead = r.ahead;
  nodup = r.nodup;
  total = omega (arith, r.total);
}

next-Records :
    (n : ℕ) (l : ChunkLedger) (ns : List ℕ)
    → Records l ns
    → contains n l.seen ≡ false
    → n ≡ l.expected
    → Records (drain_ahead (accept n l)) (n ∷ ns)
next-Records n l ns r e f =
    let a = accept-Records n l ns r e in
    rw
      (drain_ahead_idle (accept n l)
        (not_contains_above (accept n l).expected (accept n l).seen_ahead a.ahead))
      a

ahead-Records :
    (n : ℕ) (l : ChunkLedger) (ns : List ℕ)
    → Records l ns
    → contains n l.seen ≡ false
    → Records (accept n (record l { seen_ahead = add n l.seen_ahead })) (n ∷ ns)
unfolding accept
ahead-Records n l ns r e =
    let a = accept-Records n l ns r e in
    record {
      seen = a.seen;
      expected = a.expected;
      below = a.below;
      ahead = All-add n l.seen_ahead (max l.expected (suc n)) (omega arith) a.ahead;
      nodup = a.nodup;
      total = a.total;
    }

-- One chunk more, whatever its number.
offer_number-Records :
    (n : ℕ) (l : ChunkLedger) (ns : List ℕ) → Records l ns → Records (offer_number n l).1 (n ∷ ns)
unfolding offer_number
offer_number-Records n l ns r = elim (Bool-cases (contains n l.seen)) [
  | inl e ↦ rw e (again-Records n l ns r e)
  | inr e ↦ elim (Bool-cases (eqb n l.expected)) [
    | inl f ↦ rw (e, f) (next-Records n l ns r e (ground arith))
    | inr f ↦ elim (Bool-cases (ltb l.expected n)) [
      | inl g ↦ rw (e, f, g) (ahead-Records n l ns r e)
      | inr g ↦ rw (e, f, g) (accept-Records n l ns r e)
    ]
  ]
]

pub after-Records : (ns : List ℕ) → Records (after ns) ns
unfolding after
after-Records [] = record {
  seen = λ n. refl;
  expected = refl;
  below = tt;
  ahead = tt;
  nodup = tt;
  total = refl;
}
after-Records (n ∷ ns) = offer_number-Records n (after ns) ns (after-Records ns)
