-- ===== src/Sidecar/Tests.antt =====
-- The subscriber table at concrete contents.
use ar8030_transport.Base.{◌≡◌, refl, arith, List, [], ◌∷◌, replicate}
use ar8030_transport.Sidecar.{Addr, Sub, subscribe, receivers}
use ar8030_transport.Sidecar.Subscribers.{Apart, NoDup, after, receivers-after}

abbrev viewer : Addr
viewer = record { ip = 2130706433; port = 5600 }

abbrev osd : Addr
osd = record { ip = 2130706433; port = 5601 }

abbrev unused : List Sub
unused = replicate 4 (record { addr = record { ip = 0; port = 0 }; expires_us = 0 })

unused-Apart : Apart 10 unused
unused-Apart = grind arith

receivers-after_example :
    NoDup (receivers 30 (after unused ((viewer, 10) ∷ (osd, 15) ∷ (viewer, 20) ∷ [])))
receivers-after_example =
    receivers-after 10 30 unused ((viewer, 10) ∷ (osd, 15) ∷ (viewer, 20) ∷ []) unused-Apart
      (omega arith, (omega arith, (omega arith, omega arith)))

-- Two subscribers, one of them twice, are each served once.
served_run :
    receivers 30 (after unused ((viewer, 10) ∷ (osd, 15) ∷ (viewer, 20) ∷ [])) ≡ viewer ∷ osd ∷ []
unfolding receivers subscribe
served_run = refl
