-- ===== src/TimingSei/Tests.antt =====
-- The SEI at concrete timings, with runs of zeros that need prevention bytes.
use ar8030_transport.Base.{◌≡◌, refl, ◌∷◌, some, true, false, arith, drop}
use ar8030_transport.TimingSei.{
  TimingSei, build, build_suffix, of_nal, parse, escape, rbsp, of_rbsp, strip,
}
use ar8030_transport.TimingSei.Emulation.{IsTimingSei, Clean, of_nal-build}

abbrev timing : TimingSei
timing = record {
  version = 1;
  flags = 0;
  frame_seq = 0;
  capture_ground_us = 1;
  rx_done_ground_us = 256;
  sync_uncertainty_us = 120;
  encode_us = 0;
  frames_lost = 0;
}

timing-IsTimingSei : IsTimingSei timing
unfolding IsTimingSei
timing-IsTimingSei = omega arith

of_nal-build_example :
    (of_nal false (drop 4 (build timing)) ≡ some timing)
    × (of_nal true (drop 4 (build_suffix timing)) ≡ some timing)
    × Clean 0 (drop 6 (build timing))
of_nal-build_example = of_nal-build timing timing-IsTimingSei

-- An access unit of one slice, with the SEI in front.
parse-build : parse (0 ∷ 0 ∷ 0 ∷ 1 ∷ 2 ∷ 1 ∷ 7 ∷ build_suffix timing) ≡ some timing
unfolding parse build_suffix escape rbsp of_nal of_rbsp strip
parse-build = refl
