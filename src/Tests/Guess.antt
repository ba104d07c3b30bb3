-- ===== src/Tests/Guess.antt =====
-- The port predictor's theorems at three ports near the highest one.
use orcashi.Prelude.{ℕ, ◌+◌, ◌*◌, ◌≡◌, refl, pos, true, false, some, [], ◌∷◌, arith}
use orcashi.CString.Text.{codes}
use orcashi.Ports.Predictor.{PortObservation, PortPredictor, port_predictor_init, analyze_exact}
use orcashi.Ports.Progression.{analyze-progression, IsPredictor}

abbrev seen : ℕ → ℕ → PortObservation
seen p i = record { port = p; observed_at = pos 100; sequence_num = i; confirmed = false }

abbrev near_top : PortPredictor
near_top = record (port_predictor_init (codes "10.0.0.1") (pos 9000)) {
  observations = seen 65500 0 ∷ seen 65515 1 ∷ seen 65530 2 ∷ [];
}

analyze-progression_example :
    analyze_exact near_top
    ≡ some (record near_top {
      pattern_detected = true;
      pattern_offset = pos 15;
      confidence = 80;
      predicted_port = pos (65500 + 3 * 15);
    })
analyze-progression_example =
    analyze-progression 65500 15 0 near_top refl (omega arith) (omega arith)

near_top-IsPredictor : IsPredictor near_top
near_top-IsPredictor = (
  omega arith,
  ((omega arith, omega arith), ((omega arith, omega arith), ((omega arith, omega arith), tt))),
)
