-- ===== src/Evidence/Cooccurrence/Determinism.antt =====
-- `correlate` and the order in which its events arrive.
use oratoria_engine.Prelude.{◌≡◌, ap, ◌∙◌, arith, List, IsOrder}
use oratoria_engine.Prelude.Text.{leb_text_total, leb_text_trans}
use oratoria_engine.Prelude.Shuffle.{Shuffled, IsKeyed, sort-Shuffled}
use oratoria_engine.Evidence.Cooccurrence.{
  FusionWindow, TimedEvent, correlate, all_pairs, ordered, le_event,
}

le_event-IsOrder : IsOrder le_event
unfolding le_event
le_event-IsOrder = record {
  total = λ x y. ground (arith, leb_text_total x.id y.id);
  trans = λ x y z h k. ground (arith, h, k, leb_text_trans x.id y.id z.id);
}

module _ (w : FusionWindow) {ss ss' vs vs' : List TimedEvent} where
  -- Correlation depends on the events and not on the order they are handed over in: when the
  -- speech events and the visual events are each rearranged, and no two different events of one
  -- list agree in start, end and identifier, the returned list is the same, in the same order.
  pub correlate_order_free :
      Shuffled ss ss'
      → Shuffled vs vs'
      → IsKeyed le_event ss
      → IsKeyed le_event vs
      → correlate ss vs w ≡ correlate ss' vs' w
  unfolding correlate ordered
  correlate_order_free s v ks kv =
      ap (λ l. all_pairs w l (ordered vs)) (sort-Shuffled le_event le_event-IsOrder s ks)
      ∙ ap (all_pairs w (ordered ss')) (sort-Shuffled le_event le_event-IsOrder v kv)
