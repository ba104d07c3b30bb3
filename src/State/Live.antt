-- ===== src/State/Live.antt =====
-- The peers in use: the first `peer_count` slots of the array, and what each operation makes of them.
use orcashi.Prelude.{
  ℕ, zero, suc, ◌-◌, ◌≤◌, ◌<◌, ◌≡◌, refl, ap, ap₂, ◌∙◌, List, [], ◌∷◌, arith, length, get_or, set,
  take, erase_idx, length-set, take-set,
}
use orcashi.State.Types.{Peer, zero_peer, Store}
use orcashi.State.Peers.{shift_left, put_peer}

abbrev pub live : Store → List Peer
live s = take s.peer_count s.peers

-- The shift leaves the slots before `j` alone.
shift_left_later :
    (n j : ℕ) (p : Peer) (ps : List Peer) → shift_left n (suc j) (p ∷ ps) ≡ p ∷ shift_left n j ps
unfolding shift_left
shift_left_later zero j p ps = refl
shift_left_later (suc n) j p ps =
    shift_left_later n (suc j) p (set ps j (get_or ps (suc j) zero_peer))

-- Shifting the whole of a list's first `n + 1` slots drops the first of them.
shift_left_front :
    (n : ℕ) (p : Peer) (ps : List Peer)
    → n ≤ length ps
    → take n (shift_left n 0 (p ∷ ps)) ≡ take n ps
unfolding shift_left
shift_left_front zero p ps h = refl
shift_left_front (suc n) p [] h = absurd (omega arith)
shift_left_front (suc n) p (x ∷ ps) h =
    ap (take (suc n)) (shift_left_later n 0 x (x ∷ ps))
    ∙ ap (◌∷◌ x) (shift_left_front n x ps (omega arith))

-- The same slots and rounds, written another way.
shift_left-congr :
    (a a' b b' j : ℕ) (ps : List Peer)
    → a ≡ a'
    → b ≡ b'
    → take a (shift_left b j ps) ≡ take a' (shift_left b' j ps)
shift_left-congr a a' b b' j ps p q = ap₂ (λ x y. take x (shift_left y j ps)) p q

-- `state_remove_peer`'s loop erases one of the first `n` entries.
pub take-shift_left :
    (n i : ℕ) (ps : List Peer)
    → i < n
    → n ≤ length ps
    → take (n - 1) (shift_left (n - 1 - i) i ps) ≡ erase_idx (take n ps) i
take-shift_left zero i ps h k = absurd (omega arith)
take-shift_left (suc n) i [] h k = absurd (omega arith)
take-shift_left (suc n) zero (p ∷ ps) h k =
    shift_left-congr (suc n - 1) n (suc n - 1 - 0) n 0 (p ∷ ps) (omega arith) (omega arith)
    ∙ shift_left_front n p ps (omega arith)
take-shift_left (suc n) (suc i) (p ∷ ps) h k =
    shift_left-congr (suc n - 1) (suc (n - 1)) (suc n - 1 - suc i) (n - 1 - i) (suc i) (p ∷ ps)
      (omega arith) (omega arith)
    ∙ ap (take (suc (n - 1))) (shift_left_later (n - 1 - i) i p ps)
    ∙ ap (◌∷◌ p) (take-shift_left n i ps (omega arith) (omega arith))

pub length-shift_left : (n j : ℕ) (ps : List Peer) → length (shift_left n j ps) ≡ length ps
unfolding shift_left
length-shift_left zero j ps = refl
length-shift_left (suc n) j ps =
    length-shift_left n (suc j) (set ps j (get_or ps (suc j) zero_peer))
    ∙ length-set ps j (get_or ps (suc j) zero_peer)

pub live-put_peer : (s : Store) (i : ℕ) (p : Peer) → live (put_peer s i p) ≡ set (live s) i p
live-put_peer s i p = take-set s.peer_count s.peers i p
