-- ===== src/Ports/Progression.antt =====
-- What is predicted after ports at equal distances.
use orcashi.Prelude.{
  ℕ, zero, suc, ◌+◌, ◌*◌, ◌≤◌, ◌<◌, ◌≡◌, refl, ap, ◌∙◌, ℤ, pos, sub_ℕ, true, false, ◌&&◌, some,
  List, [], ◌∷◌, ltb, length, map, arith, le→ltb, leb, All, Bool-cases, inl, inr, ◌||◌, ◌++◌,
  length-append, negsuc, false,
}
use orcashi.Ports.Predictor.{
  PortPredictor, diffs, all_same, sequential_offset, last_port, analyze_exact, ports_of, same_int,
  samples, max_port, min_port, PortObservation, port_predictor_add_observation,
}

-- `n` ports at distance `d`, from `first` on.
abbrev pub progression : ℕ → ℕ → ℕ → List ℕ
progression first d zero = []
progression first d (suc n) = first ∷ progression (first + d) d n

step : (p d : ℕ) → sub_ℕ (p + d) p ≡ pos d
step p d = ground arith

same_int_refl : (d : ℕ) → same_int (pos d) (pos d) ≡ true
same_int_refl d = ground arith

all_same-progression : (first d n : ℕ) → all_same (pos d) (diffs (progression first d n)) ≡ true
unfolding diffs all_same
all_same-progression first d zero = refl
all_same-progression first d (suc zero) = refl
all_same-progression first d (suc (suc n)) =
    rw (step first d, same_int_refl d, all_same-progression (first + d) d (suc n))

last_port-progression : (first d n : ℕ) → last_port (progression first d (suc n)) ≡ first + n * d
unfolding last_port
last_port-progression first d zero = omega arith
last_port-progression first d (suc n) = last_port-progression (first + d) d n ∙ grind arith

diffs-progression :
    (first d n : ℕ)
    → diffs (progression first d (suc (suc n))) ≡ pos d ∷ diffs (progression (first + d) d (suc n))
unfolding diffs
diffs-progression first d n = rw (step first d)

small_step : (d : ℕ) → 0 < d → d < 20 → (ltb 0 d && ltb d 20) ≡ true
small_step d h k = ground arith

offset-progression :
    (first d n : ℕ)
    → 0 < d
    → d < 20
    → sequential_offset (progression first d (suc (suc n))) ≡ some d
unfolding sequential_offset
offset-progression first d n h k = rw (
  sequential_offset,
  diffs-progression first d n,
  all_same-progression (first + d) d (suc n),
  small_step d h k,
)

length-progression : (first d n : ℕ) → length (progression first d n) ≡ n
length-progression first d zero = refl
length-progression first d (suc n) = ap suc (length-progression (first + d) d n)

length-ports_of : (pred : PortPredictor) → length (ports_of pred) ≡ length pred.observations
length-ports_of pred = go pred.observations
  where
    go : (os : List PortObservation) → length (map (λ o. o.port) os) ≡ length os
    go [] = refl
    go (o ∷ os) = ap suc (go os)

-- Where three or more ports were observed, each `d` above the one before with `d` from 1 to 19,
-- the number that would come next is predicted, with confidence 80, even where it is above 65535.
pub analyze-progression :
    (first d n : ℕ) (pred : PortPredictor)
    → ports_of pred ≡ progression first d (suc (suc (suc n)))
    → 0 < d
    → d < 20
    → analyze_exact pred
      ≡ some (record pred {
        pattern_detected = true;
        pattern_offset = pos d;
        confidence = 80;
        predicted_port = pos (first + (suc (suc (suc n))) * d);
      })
unfolding analyze_exact
analyze-progression first d n pred e h k =
    rw
      (
        analyze_exact,
        enough,
        e,
        offset-progression first d (suc n) h k,
        e,
        last_port-progression first d (suc (suc n)),
      )
      (ap
        (λ p. some (record pred {
          pattern_detected = true;
          pattern_offset = pos d;
          confidence = 80;
          predicted_port = pos p;
        }))
        next)
  where
    enough : ltb (length pred.observations) 3 ≡ false
    enough = le→ltb (length pred.observations) 3 (
        omega (
          arith,
          length-ports_of pred,
          ap (λ ps. length ps) e,
          length-progression first d (suc (suc (suc n))),
        ))

    next : first + suc (suc n) * d + d ≡ first + suc (suc (suc n)) * d
    next = grind arith

-- At most ten observations, each of a port from 1024 to 65535.
abbrev pub IsPredictor : PortPredictor → Type 0
IsPredictor pred =
    (length pred.observations ≤ samples)
    × All (λ p. (min_port ≤ p) × (p ≤ max_port)) (ports_of pred)

ports-observed :
    (os : List PortObservation) (o : PortObservation)
    → All (λ p. (min_port ≤ p) × (p ≤ max_port)) (map (λ x. x.port) os)
    → (min_port ≤ o.port) × (o.port ≤ max_port)
    → All (λ p. (min_port ≤ p) × (p ≤ max_port)) (map (λ x. x.port) (os ++ (o ∷ [])))
ports-observed [] o h k = (k, tt)
ports-observed (x ∷ os) o (hx, h) k = (hx, ports-observed os o h k)

-- After any observation a predictor has at most ten ports, all from 1024 to 65535.
add_observation-IsPredictor :
    (observed now : ℤ) (pred : PortPredictor)
    → IsPredictor pred
    → IsPredictor (port_predictor_add_observation observed now pred).1
unfolding port_predictor_add_observation
add_observation-IsPredictor (negsuc n) now pred h = h
add_observation-IsPredictor (pos n) now pred (room, h) =
    elim (Bool-cases (leb samples (length pred.observations))) [
      | inl full ↦ rw full (room, h)
      | inr free ↦ elim (Bool-cases (ltb n min_port || ltb max_port n)) [
        | inl bad ↦ rw (free, bad) (room, h)
        | inr good ↦
            rw (free, good) (fits free, ports-observed pred.observations _ h (in_range good))
      ]
    ]
  where
    fits :
        leb samples (length pred.observations) ≡ false
        → length (
            pred.observations
            ++ (record {
              port = n;
              observed_at = now;
              sequence_num = length pred.observations;
              confirmed = false;
            }
                ∷ []))
          ≤ samples
    fits free = ground (
      arith,
      length-append pred.observations (
          record {
            port = n;
            observed_at = now;
            sequence_num = length pred.observations;
            confirmed = false;
          }
          ∷ []),
    )

    in_range : (ltb n min_port || ltb max_port n) ≡ false → (min_port ≤ n) × (n ≤ max_port)
    in_range good = ground arith
