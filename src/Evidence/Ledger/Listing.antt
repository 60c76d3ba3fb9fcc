-- ===== src/Evidence/Ledger/Listing.antt =====
-- What `all_current` lists, and in which order.
use oratoria_engine.Prelude.{
  ℕ, suc, ◌≡◌, refl, ap, String, some, List, [], ◌∷◌, inl, inr, arith, get_last?, lookup, Items,
  values, string_eq, In, In-sort, sort, sort-IsSorted, IsSorted, IsOrder, length, length-sort,
  Option-cases, Dict, ◌∙◌,
}
use oratoria_engine.Prelude.Text.{leb_text_total, leb_text_trans}
use oratoria_engine.Shared.Errors.{ok}
use oratoria_engine.Evidence.Ledger.{
  LedgerEntry, EvidenceLedger, current, lasts, all_current, le_entry,
}
use oratoria_engine.Evidence.Ledger.Histories.{IsHistory, IsWellFormed}

module _ {P : Type 0} where
  le_entry-IsOrder : IsOrder (le_entry {P = P})
  unfolding le_entry
  le_entry-IsOrder = record {
    total = λ x y. ground (arith, leb_text_total x.event_id y.event_id);
    trans = λ x y z h k. ground (arith, leb_text_trans x.event_id y.event_id z.event_id);
  }

  last_of_history :
      (id : String) (n : ℕ) (versions : List (LedgerEntry P))
      → IsHistory id n versions
      → (e : LedgerEntry P) × (get_last? versions ≡ some e)
  last_of_history id n [] h = elim h [ ]
  last_of_history id n (e ∷ []) h = (e, refl)
  last_of_history id n (e ∷ f ∷ es) h = last_of_history id (suc n) (f ∷ es) h.3

  -- In a dict of histories every event has a last version, and all are listed.
  lasts_total :
      (d : Dict String (List (LedgerEntry P)))
      → Items (λ id v. IsHistory id 0 v) d
      → (es : List (LedgerEntry P)) × (lasts (values d) ≡ ok es)
        × (length es ≡ length d)
        × ((j : String) (v : List (LedgerEntry P)) (e : LedgerEntry P)
            → lookup j d ≡ some v
            → get_last? v ≡ some e
            → In e es)
  unfolding lasts lookup
  lasts_total [] h = ([], refl, refl, λ j v e p q. cc)
  lasts_total ((id, v) ∷ d) h =
      let (e, p) = last_of_history id 0 v h.0 in
      let (es, q, n, m) = lasts_total d h.1 in
      (e ∷ es, ground (arith, p, q), ap suc n, λ j w f r s. ground (arith, m j w f, p))

  -- In a well-formed ledger `all_current` does not fail. It lists one entry for each event, the
  -- current version of every event among them, ordered by start, end and identifier.
  pub all_current_complete :
      (l : EvidenceLedger P)
      → IsWellFormed l
      → (es : List (LedgerEntry P)) × (all_current l ≡ ok es)
        × (length es ≡ length l.history)
        × IsSorted le_entry es
        × ((j : String) (e : LedgerEntry P) → current l j ≡ ok e → In e es)
  unfolding all_current current
  all_current_complete l h =
      let (es, q, n, m) = lasts_total l.history h in
      (
        sort le_entry es,
        ground (arith, q),
        length-sort le_entry es ∙ n,
        sort-IsSorted le_entry-IsOrder es,
        λ j e c. elim (Option-cases (lookup j l.history)) [
          | inl r ↦ absurd (ground (arith, r))
          | inr (v, r) ↦ (In-sort le_entry e es).1 (m j v e r (ground (arith, r)))
        ],
      )
