-- ===== src/BindButton/Tests.antt =====
-- A short and a long press.
use ar8030_transport.Base.{◌≡◌, false, some, [], ◌∷◌}
use ar8030_transport.BindButton.{Round, round, run_longpress, wait_lockout, is_pressed}
use ar8030_transport.BindButton.Press.{round-intended}

abbrev long_press : Round
long_press = record {
  first = some 0;
  second = some 0;
  began = 100;
  held = 100 ∷ 103 ∷ 105 ∷ 106 ∷ [];
  stopped = false;
}

round-intended_example : round long_press ≡ run_longpress ∷ wait_lockout ∷ []
unfolding is_pressed
round-intended_example = round-intended long_press
