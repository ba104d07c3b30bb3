-- ===== src/State/Fields.antt =====
-- state_manager.c: the setters. Each finds the peer, leaves the lock, takes it again and writes
-- through the pointer; here no other thread runs in between.
use orcashi.Prelude.{ℤ, Bool, none, some, Code, ok, err}
use orcashi.CString.Text.{Bytes}
use orcashi.State.Types.{Peer, Store}
use orcashi.State.Peers.{peer_at, put_peer, state_get_peer}

-- `Peer* p = state_get_peer(id); if (!p) return -1; … return 0;`
unfoldable pub with_peer : Bytes → (Peer → Peer) → Store → Code × Store
with_peer id write s = elim (state_get_peer s id) [
  | none ↦ (err, s)
  | some i ↦ (ok, put_peer s i (write (peer_at s i)))
]

unfoldable pub state_set_online : Bytes → Bool → ℤ → Store → Code × Store
unfolding with_peer
state_set_online id online now = with_peer id (λ p. record p { online = online; last_seen = now })

unfoldable pub state_set_busy : Bytes → Bool → Store → Code × Store
unfolding with_peer
state_set_busy id busy = with_peer id (λ p. record p { busy = busy })

unfoldable pub state_set_secure : Bytes → Bool → Store → Code × Store
unfolding with_peer
state_set_secure id secure = with_peer id (λ p. record p { is_secure = secure })

-- `strcpy` into the 16 bytes of `ip`, the 128 of `name` and the 4096 of `public_key`: nothing
-- checks that the text fits.
unfoldable pub state_set_ip : Bytes → Bytes → Store → Code × Store
unfolding with_peer
state_set_ip id ip = with_peer id (λ p. record p { ip = ip })

unfoldable pub state_set_port : Bytes → ℤ → Store → Code × Store
unfolding with_peer
state_set_port id port = with_peer id (λ p. record p { port = port })

unfoldable pub state_set_name : Bytes → Bytes → Store → Code × Store
unfolding with_peer
state_set_name id name = with_peer id (λ p. record p { name = name })

unfoldable pub state_set_public_key : Bytes → Bytes → Store → Code × Store
unfolding with_peer
state_set_public_key id pubkey = with_peer id (λ p. record p { public_key = pubkey })

unfoldable pub state_update_last_seen : Bytes → ℤ → Store → Code × Store
unfolding with_peer
state_update_last_seen id now = with_peer id (λ p. record p { last_seen = now })
