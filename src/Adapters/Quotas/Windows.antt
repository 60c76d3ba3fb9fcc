-- ===== src/Adapters/Quotas/Windows.antt =====
-- Callers that consume what `check` allowed.
use oratoria_engine.Prelude.{
  ℕ, ◌+◌, ◌≤◌, ◌≡◌, sym, ap, subst, ◌∙◌, inl, inr, String, true, List, [], ◌∷◌, some, lookup,
  lookup-insert, arith, Bool-cases, nat_eq, string_eq, pair_eq, ◌==◌, if◌then◌else◌,
}
use oratoria_engine.Adapters.Quotas.{QuotaGuard, key, count_of, used, check, consume}

-- One request, at one reading of the clock.
pub record Request : Type 0 where
  pub now : ℕ
  pub application : String
  pub unit : String
  pub amount : ℕ

-- The guard before the work: consume only what was allowed.
abbrev pub spend : QuotaGuard → Request → QuotaGuard
spend g r =
    if (check r.now r.application r.unit r.amount g).allowed
    then consume r.now r.application r.unit r.amount g
    else g

abbrev pub spend_all : QuotaGuard → List Request → QuotaGuard
spend_all g [] = g
spend_all g (r ∷ rs) = spend_all (spend g r) rs

used-consume :
    (now later : ℕ) (a b u v : String) (n : ℕ) (g : QuotaGuard)
    → used later b v (consume now a u n g)
      ≡ (if key now a u g == key later b v g then used now a u g + n else used later b v g)
unfolding used consume
used-consume now later a b u v n g =
    ap count_of (lookup-insert (key now a u g) (key later b v g) (used now a u g + n) g.counts)
    ∙ ground arith

-- No application uses more than the limit of a unit within one window.
abbrev pub Within : String → ℕ → QuotaGuard → Type 0
Within unit limit g = (now : ℕ) (application : String) → used now application unit g ≤ limit

limits-spend : (g : QuotaGuard) (r : Request) → (spend g r).limits ≡ g.limits
unfolding consume
limits-spend g r = ground arith

check-allowed :
    (now : ℕ) (application unit : String) (amount limit : ℕ) (g : QuotaGuard)
    → lookup unit g.limits ≡ some limit
    → (check now application unit amount g).allowed ≡ true
    → used now application unit g + amount ≤ limit
unfolding check
check-allowed now application unit amount limit g l c = ground (arith, l, c)

-- A request and a reading that fall under one key are about the same unit.
same_unit :
    (g : QuotaGuard) (r : Request) (now : ℕ) (application unit : String)
    → (key r.now r.application r.unit g == key now application unit g) ≡ true
    → r.unit ≡ unit
same_unit g r now application unit e = ground (arith, e, string_eq.beq_iff r.unit unit)

spend-Within :
    (unit : String) (limit : ℕ) (g : QuotaGuard) (r : Request)
    → lookup unit g.limits ≡ some limit
    → Within unit limit g
    → Within unit limit (spend g r)
spend-Within unit limit g r l h now a =
    elim (Bool-cases (check r.now r.application r.unit r.amount g).allowed) [
      | inl c ↦ elim (Bool-cases (key r.now r.application r.unit g == key now a unit g)) [
        | inl e ↦
            rw (c, used-consume r.now now r.application a r.unit unit r.amount g, e)
              (check-allowed r.now r.application r.unit r.amount limit g
                (subst (λ u. lookup u g.limits ≡ some limit) (sym (same_unit g r now a unit e)) l)
                c)
        | inr e ↦ rw (c, used-consume r.now now r.application a r.unit unit r.amount g, e) (h now a)
      ]
      | inr c ↦ rw c (h now a)
    ]

-- Quotas hold. Over any sequence of requests, of any application and unit and at any readings of the
-- clock, each of which consumes only what `check` allowed at that moment, no application ever
-- uses more of a limited unit within a window than the limit, if that was so at the start.
pub spend_all-Within :
    (unit : String) (limit : ℕ) (g : QuotaGuard) (rs : List Request)
    → lookup unit g.limits ≡ some limit
    → Within unit limit g
    → Within unit limit (spend_all g rs)
spend_all-Within unit limit g [] l h = h
spend_all-Within unit limit g (r ∷ rs) l h =
    spend_all-Within unit limit (spend g r) rs (ap (lookup unit) (limits-spend g r) ∙ l)
      (spend-Within unit limit g r l h)
