-- ===== src/IdrCtrl/Tests.antt =====
-- Keyframe requests: one token twice, and a burst of different ones.
use ar8030_transport.Base.{◌≡◌, refl, List, [], ◌∷◌, false, arith}
use ar8030_transport.IdrCtrl.{Config, init, handle_idr, any_repeat, remember}
use ar8030_transport.IdrCtrl.Limits.{Request, honored, Spaced, honored-Spaced}

abbrev config : Config
config = record { dedup_ms = 2000; coalesce_ms = 500 }

abbrev burst : List Request
burst =
    record { token = 65 ∷ []; now = 1000; congested = false }
    ∷ record { token = 66 ∷ []; now = 1100; congested = false }
    ∷ record { token = 67 ∷ []; now = 1600; congested = false }
    ∷ []

-- The second of the three comes too soon.
honored-burst : honored config init burst ≡ 1000 ∷ 1600 ∷ []
unfolding honored handle_idr init any_repeat remember
honored-burst = refl

honored-Spaced_example : Spaced 500 init.last_honored_ms (honored config init burst)
honored-Spaced_example =
    honored-Spaced config init burst (omega arith, (omega arith, (omega arith, tt)))
