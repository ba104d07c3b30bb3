-- ===== src/P2p/Table.antt =====
-- p2p_manager.c: the table of peers, and its mutex.
use mathlib.Core.Option
use orcashi.Prelude.{
  ℕ, zero, suc, ◌+◌, ℤ, Bool, true, false, Option, none, some, List, [], ◌∷◌, leb, if◌then◌else◌,
  get_or, set, Code, ok, err,
}
use orcashi.CString.Text.{Bytes, str_eq}
use orcashi.CString.Memory.{Run, done, blocked, ◌>>=◌}
use orcashi.State.Ids.{normalize_id}
use orcashi.Events.World.{Call}
use orcashi.Events.Handlers.{calls}
use orcashi.P2p.Types.{
  P2pPeer, P2pState, disconnected, is_established, zero_peer, p2p_max_peers, Manager,
}

-- `pthread_mutex_lock(&g_p2p_mutex)`: the mutex is not recursive, so that a thread that holds it
-- waits for ever.
unfoldable pub lock : Manager → Run Manager
lock m = if m.mutex_held then blocked else done (record m { mutex_held = true })

abbrev pub unlock : Manager → Manager
unlock m = record m { mutex_held = false }

abbrev pub peer_at : Manager → ℕ → P2pPeer
peer_at m i = get_or m.peers i zero_peer

abbrev pub put_peer : Manager → ℕ → P2pPeer → Manager
put_peer m i p = record m { peers = set m.peers i p }

-- A step that is left out where the one before it failed.
unfoldable pub and_then : Code × Manager → (Manager → Code × Manager) → Code × Manager
and_then (err, m) f = (err, m)
and_then (ok, m) f = f m

-- Calls of the state manager and of `event_queue_push`.
abbrev pub act : ℤ → List Call → Manager → Manager
act now cs m = record m { world = calls now cs m.world }

-- The first of `n` peers that passes a test.
unfoldable pub find_index : (P2pPeer → Bool) → ℕ → List P2pPeer → Option ℕ
find_index test zero ps = none
find_index test (suc n) [] = none
find_index test (suc n) (p ∷ ps) = if test p then some 0 else Option.map suc (find_index test n ps)

abbrev pub has_id : Bytes → P2pPeer → Bool
has_id norm_id p = str_eq (normalize_id p.id) norm_id

-- A pointer into the table is the index.
unfoldable pub find_peer : Bytes → Manager → Run (Option ℕ × Manager)
unfolding lock find_index
find_peer id m = do
  m' ← lock m
  done (find_index (has_id (normalize_id id)) m'.peer_count m'.peers, unlock m')

abbrev pub fresh_peer : Bytes → ℤ → P2pPeer
fresh_peer norm_id now = record zero_peer {
  id = norm_id;
  state = disconnected;
  udp_socket = none;
  created_at = now;
  last_activity = now;
}

unfoldable pub add_entry : ℤ → Bytes → Manager → Option ℕ × Manager
unfolding find_index
add_entry now norm_id m = elim (find_index (has_id norm_id) m.peer_count m.peers) [
  | some i ↦ (some i, m)
  | none ↦ if leb p2p_max_peers m.peer_count then (none, m) else (
    some m.peer_count,
    record m {
      peers = set m.peers m.peer_count (fresh_peer norm_id now);
      peer_count = m.peer_count + 1;
    },
  )
]

unfoldable pub add_peer : ℤ → Bytes → Manager → Run (Option ℕ × Manager)
unfolding lock add_entry
add_peer now id m = do
  m' ← lock m
  let (i, m'') = add_entry now (normalize_id id) m'
  done (i, unlock m'')

-- What a reader learns of a peer.
unfoldable pub query : {A : Type 0} → Bytes → A → (P2pPeer → A) → Manager → Run (A × Manager)
unfolding find_peer
query id otherwise f m = do
  (i, m') ← find_peer id m
  done (elim i [ none ↦ otherwise | some j ↦ f (peer_at m' j) ], m')

unfoldable pub p2p_is_connected : Bytes → Manager → Run (Bool × Manager)
unfolding query
p2p_is_connected id = query id false (λ p. is_established p.state)

unfoldable pub p2p_is_secure : Bytes → Manager → Run (Bool × Manager)
unfolding query
p2p_is_secure id = query id false (λ p. p.is_secure)

unfoldable pub p2p_get_state : Bytes → Manager → Run (P2pState × Manager)
unfolding query
p2p_get_state id = query id disconnected (λ p. p.state)
