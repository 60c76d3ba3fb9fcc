-- ===== src/Application/Coordinator/Settling.antt =====
-- What the loop of `_finalize_through` makes final.
use oratoria_engine.Prelude.{
  String, true, false, Bool-cases, none, some, List, [], ◌∷◌, Dict, ◌⊎◌, lookup, insert, values,
  lookup-insert_same, string_eq, ◌==◌, ◌≡◌, inl, inr, refl, ap, sym, subst, ◌∙◌, arith,
}
use oratoria_engine.Prelude.Int.{ℤ}
use oratoria_engine.Shared.Errors.{Error, Result, ok, raised, Result-cases}
use oratoria_engine.Shared.Effects.{Action, continue_with, pure}
use oratoria_engine.Events.Speech.{SpeechEvent, finalize}
use oratoria_engine.Application.Coordinator.{
  Live, record_event, settle, settle_due, is_due, put_event,
}
use oratoria_engine.Application.Coordinator.Stays.{
  IsKeyed, finalize_lem, finalized, none_under, record_event-events, settle_due-others,
}

module _ {F : Type 0} where
  pure_cases :
      (f : SpeechEvent F) (p : Result (Unit {0}) × Live F)
      → ((x : Error) × (continue_with (λ a. pure f) p ≡ (raised x, p.1)))
        ⊎ (continue_with (λ a. pure f) p ≡ (ok f, p.1))
  pure_cases f (ok a, w) = inr refl
  pure_cases f (raised x, w) = inl (x, refl)

  -- Settling raises, or returns the final event and files it.
  settle_cases :
      (e : SpeechEvent F) (w : Live F)
      → ((x : Error) × (w' : Live F) × (settle e w ≡ (raised x, w')))
        ⊎ ((w' : Live F) × (settle e w ≡ (ok (finalized e), w'))
            × (w'.speech_events ≡ insert e.id (finalized e) w.speech_events))
  unfolding settle
  settle_cases e w = elim (Result-cases (finalize e)) [
    | inr (x, h) ↦ inl (x, w, rw h refl)
    | inl (f, h) ↦
        let p = record_event f (put_event f w) in
        let same = finalize_lem e f h in
        elim (pure_cases f p) [
          | inl (x, q) ↦ inl (x, p.1, rw h q)
          | inr q ↦ inr (
            p.1,
            rw h (q ∙ ap (λ g. (ok g, p.1)) same),
            record_event-events f (put_event f w) ∙ ap (λ g. insert g.id g w.speech_events) same,
          )
        ]
  ]

  module _ (t : ℤ) (e : SpeechEvent F) (es : List (SpeechEvent F)) (w : Live F) where
    not_due_step : is_due t e ≡ false → settle_due t (e ∷ es) w ≡ settle_due t es w
    unfolding settle_due
    not_due_step h = rw h refl

    raised_step :
        (x : Error) (w1 : Live F)
        → is_due t e ≡ true
        → settle e w ≡ (raised x, w1)
        → settle_due t (e ∷ es) w ≡ (raised x, w1)
    unfolding settle_due
    raised_step x w1 h q = rw (h, q) refl

    settled_step :
        (f : SpeechEvent F) (w1 : Live F)
        → is_due t e ≡ true
        → settle e w ≡ (ok f, w1)
        → settle_due t (e ∷ es) w ≡ continue_with (λ later. pure (f ∷ later)) (settle_due t es w1)
    unfolding settle_due
    settled_step f w1 h q = rw (h, q) refl

  -- Where a sequence of two actions does not raise, neither does the first.
  pub bind_ok :
      {A B : Type 0} (g : A → Action (Live F) B) (p : Result A × Live F) (b : B) (w' : Live F)
      → continue_with g p ≡ (ok b, w')
      → (a : A) × (w1 : Live F) × (p ≡ (ok a, w1)) × (g a w1 ≡ (ok b, w'))
  bind_ok g (ok a, w) b w' q = (a, w, refl, q)
  bind_ok g (raised x, w) b w' q = ground (arith, q)

  here_none :
      (k id : String) (d : Dict String (SpeechEvent F))
      → lookup k d ≡ none
      → (k == id) ≡ true
      → lookup id d ≡ none
  here_none k id d h r = subst (λ x. lookup x d ≡ none) ((string_eq.beq_iff k id).0 r) h

  pub filed :
      (k id : String) (x e : SpeechEvent F) (d : Dict String (SpeechEvent F))
      → x ≡ e
      → k ≡ x.id
      → (k == id) ≡ true
      → lookup id (insert x.id (finalized x) d) ≡ some (finalized e)
  filed k id x e d same named here =
      let i : id ≡ x.id = sym ((string_eq.beq_iff k id).0 here) ∙ named in
      subst (λ j. lookup j (insert x.id (finalized x) d) ≡ some (finalized e)) (sym i)
        (lookup-insert_same x.id (finalized x) d ∙ ap (λ y. some (finalized y)) same)

  -- The loop makes every event final that is held and due, if it does not raise.
  pub settle_due-hits :
      (id : String) (e : SpeechEvent F) (t : ℤ) (d : Dict String (SpeechEvent F))
      → IsKeyed d
      → lookup id d ≡ some e
      → is_due t e ≡ true
      → (w w' : Live F) (l : List (SpeechEvent F)) → settle_due t (values d) w ≡ (ok l, w')
      → lookup id w'.speech_events ≡ some (finalized e)
  unfolding lookup
  settle_due-hits id e t [] h g due w w' l q = ground (arith, g)
  settle_due-hits id e t ((k, x) ∷ d) h g due w w' l q = elim (Bool-cases (is_due t x)) [
    | inr n ↦
        let away : (k == id) ≡ false = ground (arith, g, n, due) in
        settle_due-hits id e t d h.2 (ground (arith, g, away)) due w w' l
          (sym (not_due_step t x (values d) w n) ∙ q)
    | inl n ↦ elim (settle_cases x w) [
      | inl (y, w1, r) ↦ ground (arith, raised_step t x (values d) w y w1 n r, q)
      | inr (w1, r, events) ↦
          let (l', w2, later, end) =
            bind_ok (λ k. pure (finalized x ∷ k)) (settle_due t (values d) w1) l w'
              (sym (settled_step t x (values d) w (finalized x) w1 n r) ∙ q) in
          elim (Bool-cases (k == id)) [
            | inr away ↦
                settle_due-hits id e t d h.2 (ground (arith, g, away)) due w1 w' l'
                  (later ∙ ap (λ u. (ok l', u)) (ap (λ u. u.1) end))
            | inl here ↦
                let none_left = none_under id d h.2 (here_none k id d h.1 here) in
                let same : x ≡ e = ground (arith, g, here) in
                subst (λ u. lookup id u.speech_events ≡ some (finalized e))
                  (ap (λ u. u.1) (later ∙ ap (λ u. (ok l', u)) (ap (λ u. u.1) end)))
                  (settle_due-others id (finalized e) t (values d) none_left w1
                    (ap (lookup id) events ∙ filed k id x e w.speech_events same h.0 here))
          ]
    ]
  ]
