-- ===== src/Outq/Tests.antt =====
-- The queue at concrete contents: one entry, and a full ring whose head is in the middle.
use ar8030_transport.Base.{◌≡◌, [], ◌∷◌, arith, replicate}
use ar8030_transport.Outq.{Outq, Item, blank}
use ar8030_transport.Outq.Fifo.{IsValid, contents, pushes, pops, run, run_list, run_refines}

abbrev full : Outq
full = record { items = replicate 16 blank; head = 9; count = 16; dropped = 3 }

full-IsValid : IsValid full
full-IsValid = omega arith

abbrev item : Item
item = record blank { codec = 2; bytes = 1 ∷ 2 ∷ [] }

run_refines_example :
    run full (pushes item ∷ pops ∷ pops ∷ [])
    ≡ run_list (contents full) (pushes item ∷ pops ∷ pops ∷ [])
run_refines_example = run_refines full (pushes item ∷ pops ∷ pops ∷ []) full-IsValid
