-- ===== src/Transcript.antt =====
-- src/evidence_engine/domain/transcript/: word tokens and the transcript with its finalized
-- frontier. `C` is the type of the confidences, which this code only stores.
pub mod Frozen
pub mod Promotion
pub mod Streams
mod Tests
use oratoria_engine.Prelude.{
  ℕ, String, Bool, true, false, not, ◌&&◌, ◌||◌, List, [], ◌∷◌, ◌++◌, Option, none, some, max, sort,
  ltb, leb, eqb, leb_text, keep, length, string_eq, ◌==◌, if◌then◌else◌,
}
use oratoria_engine.Shared.Errors.{Result, ok, transcript_violation, raise_if, ◌>>=◌, ◌>>◌}
use oratoria_engine.Shared.Timeline.{Interval, MonotonicTime}

pub data TokenStatus : Type 0 where
  provisional final : TokenStatus

abbrev is_same : TokenStatus → TokenStatus → Bool
is_same provisional provisional = true
is_same final final = true
is_same provisional final = false
is_same final provisional = false

pub record WordToken (C : Type 0) : Type 0 where
  pub id : String
  pub raw_text : String
  pub interval : Interval
  pub confidence : C
  pub status : TokenStatus

pub record Transcript (C : Type 0) : Type 0 where
  pub tokens : List (WordToken C)

module _ {C : Type 0} where
  -- `WordToken(id, raw_text, interval, confidence, status)`
  unfoldable pub word_token : String → String → Interval → C → TokenStatus → Result (WordToken C)
  word_token id raw_text interval confidence status = do
    raise_if (raw_text == "") transcript_violation
    ok (record {
      id = id;
      raw_text = raw_text;
      interval = interval;
      confidence = confidence;
      status = status;
    })

  unfoldable pub is_final : WordToken C → Bool
  is_final t = is_same t.status final

  unfoldable pub finalize : WordToken C → Result (WordToken C)
  unfolding word_token is_final
  finalize t = if is_final t then ok t else word_token t.id t.raw_text t.interval t.confidence final

  unfoldable pub revise : WordToken C → String → Interval → C → Result (WordToken C)
  unfolding word_token is_final
  revise t raw_text interval confidence = do
    raise_if (is_final t) transcript_violation
    word_token t.id raw_text interval confidence provisional

  -- `_ordering`: start, end and identifier, compared as tuples
  unfoldable pub le_token : WordToken C → WordToken C → Bool
  le_token a b =
      ltb a.interval.start.ms b.interval.start.ms
      || (eqb a.interval.start.ms b.interval.start.ms
          && (ltb a.interval.end.ms b.interval.end.ms
              || (eqb a.interval.end.ms b.interval.end.ms && leb_text a.id b.id)))

  -- `max(ends, default=0)`
  abbrev pub latest_end : List (WordToken C) → ℕ
  latest_end [] = 0
  latest_end (t ∷ ts) = max t.interval.end.ms (latest_end ts)

  unfoldable pub final_tokens : Transcript C → List (WordToken C)
  final_tokens tr = keep is_final tr.tokens

  unfoldable pub provisional_tokens : Transcript C → List (WordToken C)
  provisional_tokens tr = keep (λ t. not (is_final t)) tr.tokens

  unfoldable pub finalized_frontier : Transcript C → MonotonicTime
  unfolding final_tokens
  finalized_frontier tr = record { ms = latest_end (final_tokens tr) }

  -- The loop over `fresh`.
  abbrev pub check_fresh : ℕ → List (WordToken C) → Result (Unit {0})
  check_fresh frontier [] = ok tt
  check_fresh frontier (t ∷ ts) =
      raise_if (ltb t.interval.start.ms frontier) transcript_violation >> check_fresh frontier ts

  unfoldable pub with_provisional : Transcript C → List (WordToken C) → Result (Transcript C)
  with_provisional tr incoming =
      let frontier = finalized_frontier tr in
      let kept = keep is_final tr.tokens in
      let fresh = sort le_token incoming in
      do check_fresh frontier.ms fresh; ok (record { tokens = sort le_token (kept ++ fresh) })

  -- The promoted tuple.
  abbrev pub promote : ℕ → List (WordToken C) → Result (List (WordToken C))
  promote boundary [] = ok []
  promote boundary (t ∷ ts) = do
    head ← if leb t.interval.end.ms boundary then finalize t else ok t
    rest ← promote boundary ts
    ok (head ∷ rest)

  unfoldable pub finalize_through : Transcript C → MonotonicTime → Result (Transcript C)
  finalize_through tr boundary = do
    raise_if (ltb boundary.ms (finalized_frontier tr).ms) transcript_violation
    promoted ← promote boundary.ms tr.tokens
    ok (record { tokens = promoted })

  unfoldable pub within : Transcript C → MonotonicTime → MonotonicTime → List (WordToken C)
  within tr start end =
      keep (λ t. leb start.ms t.interval.start.ms && ltb t.interval.start.ms end.ms) tr.tokens

  unfoldable pub count : Transcript C → Option TokenStatus → ℕ
  count tr none = length tr.tokens
  count tr (some status) = length (keep (λ t. is_same t.status status) tr.tokens)

  unfoldable pub build : List (WordToken C) → Transcript C
  build tokens = record { tokens = sort le_token tokens }
