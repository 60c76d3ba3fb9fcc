-- ===== src/Adapters/Quotas/Tests.antt =====
-- Two sessions in a window where one is allowed, and the theorem there.
use oratoria_engine.Prelude.{◌≡◌, refl, List, [], ◌∷◌, some, lookup, string_eq, arith}
use oratoria_engine.Adapters.Quotas.{QuotaGuard, used}
use oratoria_engine.Adapters.Quotas.Windows.{Request, Within, spend_all, spend_all-Within}

abbrev guard : QuotaGuard
guard = record { limits = ("sessions", 1) ∷ []; window_ms = 60000; counts = [] }

abbrev requests : List Request
requests =
    record { now = 10; application = "app"; unit = "sessions"; amount = 1 }
    ∷ record { now = 20; application = "app"; unit = "sessions"; amount = 1 }
    ∷ []

limited : lookup "sessions" guard.limits ≡ some 1
unfolding lookup
limited = refl

unused : Within "sessions" 1 guard
unfolding used lookup
unused now application = omega arith

spend_all-Within_example : Within "sessions" 1 (spend_all guard requests)
spend_all-Within_example = spend_all-Within "sessions" 1 guard requests limited unused
