-- ===== src/State/Queries.antt =====
-- state_manager.c: the queries.
use orcashi.Prelude.{ℕ, zero, suc, ◌+◌, Bool, true, false, none, some, List, [], ◌∷◌, if◌then◌else◌}
use orcashi.CString.Text.{Bytes}
use orcashi.State.Types.{PeerState, unknown, Peer, Store, is_friend_state, is_pending_state}
use orcashi.State.Peers.{peer_at, state_get_peer}

-- The loop that copies the peers that pass a test to an array of `room` entries.
unfoldable pub collect : (Peer → Bool) → ℕ → ℕ → List Peer → List Peer
collect keep zero room ps = []
collect keep (suc n) zero ps = []
collect keep (suc n) (suc room) [] = []
collect keep (suc n) (suc room) (p ∷ ps) = elim (keep p) [
  | true ↦ p ∷ collect keep n room ps
  | false ↦ collect keep n (suc room) ps
]

-- The loop that counts them.
unfoldable pub tally : (Peer → Bool) → ℕ → List Peer → ℕ
tally keep zero ps = 0
tally keep (suc n) [] = 0
tally keep (suc n) (p ∷ ps) = (if keep p then 1 else 0) + tally keep n ps

-- What is copied to `out`; its length is what the C function returns. `max <= 0` gives nothing.
unfoldable pub state_get_peers : Store → ℕ → List Peer
unfolding collect
state_get_peers s max = collect (λ p. true) s.peer_count max s.peers

unfoldable pub state_get_pending : Store → ℕ → List Peer
unfolding collect
state_get_pending s max = collect (λ p. is_pending_state p.state) s.peer_count max s.peers

unfoldable pub state_get_friends : Store → ℕ → List Peer
unfolding collect
state_get_friends s max = collect (λ p. is_friend_state p.state) s.peer_count max s.peers

unfoldable pub state_get_count : Store → ℕ
state_get_count s = s.peer_count

unfoldable pub state_get_pending_count : Store → ℕ
unfolding tally
state_get_pending_count s = tally (λ p. is_pending_state p.state) s.peer_count s.peers

unfoldable pub state_get_friend_count : Store → ℕ
unfolding tally
state_get_friend_count s = tally (λ p. is_friend_state p.state) s.peer_count s.peers

unfoldable pub state_is_online : Store → Bytes → Bool
state_is_online s id = elim (state_get_peer s id) [ none ↦ false | some i ↦ (peer_at s i).online ]

unfoldable pub state_is_busy : Store → Bytes → Bool
state_is_busy s id = elim (state_get_peer s id) [ none ↦ false | some i ↦ (peer_at s i).busy ]

unfoldable pub state_is_friend : Store → Bytes → Bool
state_is_friend s id = elim (state_get_peer s id) [
  | none ↦ false
  | some i ↦ is_friend_state (peer_at s i).state
]

unfoldable pub state_get_state : Store → Bytes → PeerState
state_get_state s id = elim (state_get_peer s id) [ none ↦ unknown | some i ↦ (peer_at s i).state ]

unfoldable pub state_has_pending_request : Store → Bytes → Bool
state_has_pending_request s id = elim (state_get_peer s id) [
  | none ↦ false
  | some i ↦ is_pending_state (peer_at s i).state
]
