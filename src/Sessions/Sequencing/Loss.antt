-- ===== src/Sessions/Sequencing/Loss.antt =====
-- What the ledger reports of the chunks that arrived: verdicts, confirmed gaps, and the loop of
-- `_drain_ahead`.
use oratoria_engine.Prelude.{
  ℕ, zero, suc, ◌+◌, ◌≤◌, ◌<◌, ◌≡◌, refl, ap, true, false, not, ◌&&◌, List, [], ◌∷◌, arith, ltb,
  eqb, contains, nat_eq, length, if◌then◌else◌, Bool-cases, inl, inr, sym, ◌∙◌, discard,
  length-keep-le, All,
}
use oratoria_engine.Sessions.Sequencing.{
  ChunkLedger, accepted, duplicate, gap_detected, out_of_order, accept, drain_once, drain_rounds,
  drain_ahead, offer_number, finalize, missing_count, missing_below, collapse,
}
use oratoria_engine.Sessions.Sequencing.Gaps.{numbers, AreRuns, collapse-AreRuns, numbers-collapse}
use oratoria_engine.Sessions.Sequencing.Missing.{
  missing_below-Ascending, contains-missing_below, missing_count-finalize,
}
use oratoria_engine.Sessions.Sequencing.Arrivals.{
  after, top, after-Records, drain_ahead_idle, not_contains_above, accept-Records,
}

-- The verdict on a chunk depends on the earlier arrivals alone: a repeated number is a duplicate,
-- the number after the highest is accepted, a higher one shows a gap, a lower one is late.
pub verdict_lem :
    (n : ℕ) (ns : List ℕ)
    → (offer_number n (after ns)).0 ≡ (
        if contains n ns
        then duplicate
        else if eqb n (top ns)
        then accepted
        else if ltb (top ns) n
        then gap_detected
        else out_of_order)
unfolding offer_number
verdict_lem n ns = let r = after-Records ns in ground (arith, r.seen n, r.expected)

-- `finalize` reports exactly the numbers below the highest arrival that never arrived, in whole
-- runs; each repeated arrival was counted as a duplicate, and what is missing and the distinct
-- arrivals make up all numbers that were expected.
pub loss_exact :
    (ns : List ℕ)
    → let l = finalize (after ns) in
      ((n : ℕ) → contains n (numbers l.gaps) ≡ (ltb n (top ns) && not (contains n ns)))
      × AreRuns l.gaps
      × (missing_count l + length ns ≡ top ns + l.duplicates)
unfolding finalize
loss_exact ns =
    let l = after ns in
    let r = after-Records ns in
    let a = missing_below-Ascending l.seen l.expected in
    (
      λ n. ground (
        arith,
        numbers-collapse (missing_below l.seen l.expected) a,
        contains-missing_below l.seen l.expected n,
        r.seen n,
        r.expected,
      ),
      collapse-AreRuns (missing_below l.seen l.expected) a,
      omega (arith, missing_count-finalize l r.nodup r.below, r.total, r.expected),
    )

same_missing :
    (s t : List ℕ) (n : ℕ)
    → ((m : ℕ) → contains m s ≡ contains m t)
    → missing_below s n ≡ missing_below t n
unfolding missing_below
same_missing s t zero h = refl
same_missing s t (suc n) h = ground (arith, same_missing s t n h, h n)

top_above : (n : ℕ) (ns : List ℕ) → contains n ns ≡ true → n < top ns
top_above n [] h = absurd (ground arith)
top_above n (m ∷ ns) h = ground (arith, top_above n ns)

top_le :
    (ns ms : List ℕ) → ((n : ℕ) → contains n ns ≡ true → contains n ms ≡ true) → top ns ≤ top ms
top_le [] ms h = omega arith
top_le (n ∷ ns) ms h =
    omega (arith, top_above n ms (h n (ground arith)), top_le ns ms (λ m e. h m (ground arith)))

-- The gaps depend on which chunks arrived, and not on the order or on repetitions: reordering on
-- the way is never reported as loss.
pub gaps_order_free :
    (ns ms : List ℕ)
    → ((n : ℕ) → contains n ns ≡ contains n ms)
    → (finalize (after ns)).gaps ≡ (finalize (after ms)).gaps
unfolding finalize
gaps_order_free ns ms h =
    let r = after-Records ns in
    let q = after-Records ms in
    ap collapse (
      same_missing (after ns).seen (after ms).seen (after ns).expected
        (λ n. r.seen n ∙ h n ∙ sym (q.seen n))
      ∙ ap (missing_below (after ms).seen) (r.expected ∙ same_top ∙ sym q.expected))
  where
    same_top : top ns ≡ top ms
    same_top = omega (arith, top_le ns ms (λ n e. sym (h n) ∙ e), top_le ms ns (λ n e. h n ∙ e))

-- After any arrivals, when the next chunk in sequence is accepted, every number in `_seen_ahead` is at
-- or below the highest number seen, which `expected` exceeds by one, and `_drain_ahead` changes nothing.
pub drain_never_moves :
    (ns : List ℕ)
    → let l = accept (after ns).expected (after ns) in
      (All (λ m. m < l.expected) l.seen_ahead) × (drain_ahead l ≡ l)
drain_never_moves ns =
    let n = (after ns).expected in
    let r = after-Records ns in
    let a = accept-Records n (after ns) ns r (not_contains_above n (after ns).seen r.below) in
    let l = accept n (after ns) in
    (a.ahead, drain_ahead_idle l (not_contains_above l.expected l.seen_ahead a.ahead))

length-discard : (n : ℕ) (l : List ℕ) → contains n l ≡ true → length (discard n l) < length l
length-discard n [] h = absurd (ground arith)
length-discard n (m ∷ l) h =
    ground (arith, length-discard n l, length-keep-le (λ x. not (eqb x n)) l)

not_contains_empty : (n : ℕ) (l : List ℕ) → length l ≤ 0 → contains n l ≡ false
not_contains_empty n [] h = refl
not_contains_empty n (m ∷ l) h = absurd (omega arith)

drain_rounds_end :
    (fuel : ℕ) (l : ChunkLedger)
    → length l.seen_ahead ≤ fuel
    → let d = drain_rounds fuel l in contains d.expected d.seen_ahead ≡ false
unfolding drain_rounds
drain_rounds_end zero l h = not_contains_empty l.expected l.seen_ahead h
drain_rounds_end (suc fuel) l h = elim (Bool-cases (contains l.expected l.seen_ahead)) [
  | inl e ↦
      let shorter = length-discard l.expected l.seen_ahead e in
      rw e (drain_rounds_end fuel (drain_once l) (unfold drain_once in omega arith))
  | inr e ↦ rw e e
]

-- On any ledger the `while` of `_drain_ahead` ends by its test: the next number is not among those
-- seen ahead.
pub drain_ahead_ends :
    (l : ChunkLedger) → let d = drain_ahead l in contains d.expected d.seen_ahead ≡ false
unfolding drain_ahead
drain_ahead_ends l = drain_rounds_end (length l.seen_ahead) l (omega arith)
