-- ===== src/Evidence/Ledger/Freeze.antt =====
-- The ledger only grows, and what is final stays as it is.
use mathlib.Core.List.{append-nil, append_assoc}
use text.Mathlib.Text.{◌==◌ as str_eq}
use text.Mathlib.TextEquality.{eq_iff}
use oratoria_engine.Prelude.{
  ◌≡◌, refl, sym, ap, ◌∙◌, subst, String, Bool, true, false, none, some, List, [], ◌∷◌, ◌++◌, arith,
  get_last?, get_last?-append, lookup, lookup-insert, string_eq, Option-cases, inl, inr,
  if◌then◌else◌, Bool-cases,
}
use oratoria_engine.Shared.Errors.{ok, raised, evidence_ledger_violation}
use oratoria_engine.Shared.Timeline.{Interval}
use oratoria_engine.Shared.Provenance.{Provenance}
use oratoria_engine.Evidence.Ledger.{
  LedgerEntry, EvidenceLedger, append, revise, finalize, current, history_of, store,
}
use oratoria_engine.Evidence.Ledger.Histories.{
  Change, same, opened, extended, Op, step, after, run, step-Change,
}

module _ {P : Type 0} where
  -- `history_of` after a store
  history_of-store :
      (l : EvidenceLedger P) (id j : String) (v : List (LedgerEntry P))
      → history_of (store l id v) j ≡ (if str_eq id j then v else history_of l j)
  unfolding history_of
  history_of-store l id j v = ground (arith, lookup-insert id j v l.history)

  history_of-none :
      (l : EvidenceLedger P) (j : String) → lookup j l.history ≡ none → history_of l j ≡ []
  unfolding history_of
  history_of-none l j h = ground arith

  history_of-some :
      (l : EvidenceLedger P) (j : String) (v : List (LedgerEntry P))
      → lookup j l.history ≡ some v
      → history_of l j ≡ v
  unfolding history_of
  history_of-some l j v h = ground arith

  -- The history of one event after a store to it, and after a store to another event.
  at_store :
      (l : EvidenceLedger P) {l' : EvidenceLedger P} (id j : String) (v : List (LedgerEntry P))
      → l' ≡ store l id v
      → str_eq id j ≡ true
      → history_of l' j ≡ v
  at_store l id j v q b = ap (λ m. history_of m j) q ∙ history_of-store l id j v ∙ rw b

  off_store :
      (l : EvidenceLedger P) {l' : EvidenceLedger P} (id j : String) (v : List (LedgerEntry P))
      → l' ≡ store l id v
      → str_eq id j ≡ false
      → history_of l' j ≡ history_of l j
  off_store l id j v q b = ap (λ m. history_of m j) q ∙ history_of-store l id j v ∙ rw b

  Change-grows :
      {l l' : EvidenceLedger P} (j : String)
      → Change l l'
      → (more : List (LedgerEntry P)) × (history_of l' j ≡ history_of l j ++ more)
  Change-grows {l} j (same q) = ([], ap (λ m. history_of m j) q ∙ sym (append-nil (history_of l j)))
  Change-grows {l} j (opened id e n i r q) = elim (Bool-cases (str_eq id j)) [
    | inl b ↦ (
      e ∷ [],
      at_store l id j (e ∷ []) q b
          ∙ ap (λ h. h ++ e ∷ [])
              (sym (
                history_of-none l j
                  (subst (λ k. lookup k l.history ≡ none) ((eq_iff id j).0 b) n))),
    )
    | inr b ↦ ([], off_store l id j (e ∷ []) q b ∙ sym (append-nil (history_of l j)))
  ]
  Change-grows {l} j (extended id v e f n g b i r q) = elim (Bool-cases (str_eq id j)) [
    | inl s ↦ (
      f ∷ [],
      at_store l id j (v ++ f ∷ []) q s
          ∙ ap (λ h. h ++ f ∷ [])
              (sym (
                history_of-some l j v
                  (subst (λ k. lookup k l.history ≡ some v) ((eq_iff id j).0 s) n))),
    )
    | inr s ↦ ([], off_store l id j (v ++ f ∷ []) q s ∙ sym (append-nil (history_of l j)))
  ]

  -- The ledger is append-only: after any calls the history of an event begins with the history
  -- that it had.
  pub history_grows :
      (ops : List (Op P)) (l : EvidenceLedger P) (j : String)
      → (more : List (LedgerEntry P)) × (history_of (run ops l) j ≡ history_of l j ++ more)
  unfolding run
  history_grows [] l j = ([], sym (append-nil (history_of l j)))
  history_grows (op ∷ ops) l j =
      let (first, p) = Change-grows j (step-Change op l) in
      let (rest, q) = history_grows ops (after l (step op l)) j in
      (first ++ rest, q ∙ ap (λ h. h ++ rest) p ∙ append_assoc (history_of l j) first rest)

  -- The event has a version, the last of which is `e`.
  abbrev pub EndsIn : EvidenceLedger P → String → LedgerEntry P → Type 0
  EndsIn l j e = get_last? (history_of l j) ≡ some e

  Change-frozen :
      {l l' : EvidenceLedger P} (j : String) (e : LedgerEntry P)
      → Change l l'
      → EndsIn l j e
      → e.is_final ≡ true
      → history_of l' j ≡ history_of l j
  Change-frozen j e (same q) h k = ap (λ m. history_of m j) q
  Change-frozen {l} j e (opened id f n i r q) h k = elim (Bool-cases (str_eq id j)) [
    | inl b ↦
        let gone =
          history_of-none l j (subst (λ k. lookup k l.history ≡ none) ((eq_iff id j).0 b) n) in
        cc (ap get_last? gone)
    | inr b ↦ off_store l id j (f ∷ []) q b
  ]
  Change-frozen {l} j e (extended id v c f n g b i r q) h k = elim (Bool-cases (str_eq id j)) [
    | inl s ↦
        let here =
          history_of-some l j v (subst (λ k. lookup k l.history ≡ some v) ((eq_iff id j).0 s) n) in
        ground (arith, ap get_last? here)
    | inr s ↦ off_store l id j (v ++ f ∷ []) q s
  ]

  history_frozen :
      (ops : List (Op P)) (l : EvidenceLedger P) (j : String) (e : LedgerEntry P)
      → EndsIn l j e
      → e.is_final ≡ true
      → history_of (run ops l) j ≡ history_of l j
  unfolding run
  history_frozen [] l j e h k = refl
  history_frozen (op ∷ ops) l j e h k =
      let p = Change-frozen j e (step-Change op l) h k in
      history_frozen ops (after l (step op l)) j e (ap get_last? p ∙ h) k ∙ p

  EndsIn-current :
      (l : EvidenceLedger P) (j : String) (e : LedgerEntry P) → current l j ≡ ok e → EndsIn l j e
  unfolding current history_of
  EndsIn-current l j e h = ground arith

  -- Once the current version of an event is final, no calls whatever change the event's history,
  -- `revise` and `append` of it are refused, and `finalize` returns that version again and leaves
  -- the ledger as it is.
  pub final_is_frozen :
      (ops : List (Op P)) (l : EvidenceLedger P) (j : String) (e : LedgerEntry P)
      → current l j ≡ ok e
      → e.is_final ≡ true
      → (history_of (run ops l) j ≡ history_of l j)
        × ((i : Interval) (p : Provenance) (f : Bool) (x : P)
            → (revise l j i p f x ≡ raised evidence_ledger_violation)
              × (append l j i p f x ≡ raised evidence_ledger_violation))
        × (finalize l j ≡ ok (e, l))
  unfolding current revise append finalize
  final_is_frozen ops l j e h k = (
    history_frozen ops l j e (EndsIn-current l j e h) k,
    λ i p f x. (ground arith, ground arith),
    ground arith,
  )

  -- A successful `finalize` returns the event's current version, made final, with the interval,
  -- provenance and payload that it had; from then on that is the current version.
  pub finalize_lem :
      (l l' : EvidenceLedger P) (j : String) (c e : LedgerEntry P)
      → current l j ≡ ok c
      → finalize l j ≡ ok (e, l')
      → (e.is_final ≡ true)
        × (e.interval ≡ c.interval)
        × (e.provenance ≡ c.provenance)
        × (e.payload ≡ c.payload)
        × EndsIn l' j e
  unfolding current finalize
  finalize_lem l l' j c e h k = elim (Option-cases (lookup j l.history)) [
    | inl n ↦ ground (arith, n)
    | inr (v, n) ↦ ground (
      arith,
      n,
      history_of-store l j j (v ++ e ∷ []),
      history_of-some l j v n,
      get_last?-append v e,
      eq_iff j j,
    )
  ]
