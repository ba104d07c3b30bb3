-- ===== src/Ports/Predictor.antt =====
-- port_prediction.h and port_prediction.c: observed ports, and the pattern in them.
use orcashi.Prelude.{
  ℕ, ◌+◌, ◌-◌, ◌*◌, ◌/◌, ◌%◌, ℤ, pos, negsuc, sub_ℕ, Bool, true, false, ◌&&◌, ◌||◌, Option, none,
  some, List, [], ◌∷◌, ◌++◌, ltb, leb, ◌==◌, if◌then◌else◌, length, map, Code, ok, err,
}
use orcashi.CString.Text.{Bytes}

abbrev pub samples : ℕ
samples = 10

abbrev pub min_port : ℕ
min_port = 1024

abbrev pub max_port : ℕ
max_port = 65535

pub record PortObservation : Type 0 where
  pub port : ℕ
  pub observed_at : ℤ
  pub sequence_num : ℕ
  pub confirmed : Bool

-- `observations` holds the slots in use, whose number is the field `count` of the code.
pub record PortPredictor : Type 0 where
  pub target_ip : Bytes
  pub target_port : ℤ
  pub observations : List PortObservation
  pub predicted_port : ℤ
  pub pattern_offset : ℤ
  pub pattern_detected : Bool
  pub confidence : ℕ
  pub last_prediction : ℤ
  pub best_ttl : ℕ

abbrev pub port_predictor_init : Bytes → ℤ → PortPredictor
port_predictor_init ip port = record {
  target_ip = ip;
  target_port = port;
  observations = [];
  predicted_port = negsuc 0;
  pattern_offset = pos 0;
  pattern_detected = false;
  confidence = 0;
  last_prediction = pos 0;
  best_ttl = 5;
}

unfoldable pub port_predictor_add_observation : ℤ → ℤ → PortPredictor → Code × PortPredictor
port_predictor_add_observation (negsuc n) now pred = (err, pred)
port_predictor_add_observation (pos n) now pred =
    if leb samples (length pred.observations)
    then (err, pred)
    else if ltb n min_port || ltb max_port n
    then (err, pred)
    else (
      ok,
      record pred {
        observations =
            pred.observations
            ++ (record {
              port = n;
              observed_at = now;
              sequence_num = length pred.observations;
              confirmed = false;
            }
                ∷ []);
      },
    )

unfoldable pub diffs : List ℕ → List ℤ
diffs [] = []
diffs (p ∷ []) = []
diffs (p ∷ q ∷ ports) = sub_ℕ q p ∷ diffs (q ∷ ports)

abbrev pub same_int : ℤ → ℤ → Bool
same_int (pos m) (pos n) = m == n
same_int (negsuc m) (negsuc n) = m == n
same_int (pos m) (negsuc n) = false
same_int (negsuc m) (pos n) = false

unfoldable pub all_same : ℤ → List ℤ → Bool
all_same d [] = true
all_same d (e ∷ es) = same_int e d && all_same d es

-- A positive difference below 20 that all neighbours have.
unfoldable pub sequential_offset : List ℕ → Option ℕ
sequential_offset ports = elim (diffs ports) [
  | [] ↦ none
  | negsuc n ∷ ds ↦ none
  | pos n ∷ ds ↦ if all_same (pos n) ds && (ltb 0 n && ltb n 20) then some n else none
]

unfoldable pub last_port : List ℕ → ℕ
last_port [] = 0
last_port (p ∷ []) = p
last_port (p ∷ q ∷ ports) = last_port (q ∷ ports)

unfoldable pub even_count : List ℕ → ℕ
even_count [] = 0
even_count (p ∷ ports) = (if p % 2 == 0 then 1 else 0) + even_count ports

-- The port after the last one where two thirds of the ports are even, or odd.
unfoldable pub parity_port : List ℕ → Option ℕ
parity_port ports =
    let evens = even_count ports in
    let odds = length ports - evens in
    let base = last_port ports / 2 * 2 in
    if ltb (odds * 2) evens
    then some (base + 2)
    else if ltb (evens * 2) odds
    then some (base + 3)
    else none

unfoldable pub port_prediction_possible : PortPredictor → Bool
port_prediction_possible pred =
    pred.pattern_detected && (ltb 40 pred.confidence && leb 3 (length pred.observations))

abbrev pub ports_of : PortPredictor → List ℕ
ports_of pred = map (λ o. o.port) pred.observations

-- The first two tests of `port_analyze_pattern`, which return; `none` where it goes on to the
-- regression in floating point.
unfoldable pub analyze_exact : PortPredictor → Option PortPredictor
analyze_exact pred =
    if ltb (length pred.observations) 3 then none else elim (sequential_offset (ports_of pred)) [
      | some d ↦ some (record pred {
        pattern_detected = true;
        pattern_offset = pos d;
        confidence = 80;
        predicted_port = pos (last_port (ports_of pred) + d);
      })
      | none ↦ elim (parity_port (ports_of pred)) [
        | some p ↦
            some (record pred { pattern_detected = true; confidence = 60; predicted_port = pos p })
        | none ↦ none
      ]
    ]
