-- ===== src/State/Peers.antt =====
-- state_manager.c: looking a peer up, adding, updating and removing one. A `Peer*` is the index of
-- a slot of `g_peers`; each operation is one critical section, and reads the clock once.
use orcashi.Prelude.{
  ℕ, zero, suc, ◌+◌, ◌-◌, ℤ, pos, false, Option, none, some, List, [], ◌∷◌, leb, if◌then◌else◌,
  Code, ok, err, get_or, set,
}
use mathlib.Core.Option
use orcashi.CString.Text.{Bytes, is_empty}
use orcashi.State.Types.{PeerState, unknown, Peer, zero_peer, Store, max_peers, is_friend_state}
use orcashi.State.Ids.{normalize_id, is_same_id}

-- The scan `for (int i = 0; i < g_peer_count; i++)` for an id: the first index that matches.
unfoldable pub find_peer : ℕ → List Peer → Bytes → Option ℕ
find_peer zero ps id = none
find_peer (suc n) [] id = none
find_peer (suc n) (p ∷ ps) id =
    if is_same_id p.id id then some 0 else Option.map suc (find_peer n ps id)

-- `&g_peers[i]`
abbrev pub peer_at : Store → ℕ → Peer
peer_at s i = get_or s.peers i zero_peer

-- A write through a `Peer*`.
abbrev pub put_peer : Store → ℕ → Peer → Store
put_peer s i p = record s { peers = set s.peers i p }

unfoldable pub state_get_peer : Store → Bytes → Option ℕ
state_get_peer s id =
    let norm_id = normalize_id id in
    if is_empty norm_id then none else find_peer s.peer_count s.peers norm_id

-- What `state_add_peer` writes to the slot `p`; the other fields keep what stood there.
abbrev pub fresh_peer : Peer → Bytes → ℤ → Peer
fresh_peer p norm_id now = record p {
  id = norm_id;
  state = unknown;
  online = false;
  busy = false;
  is_secure = false;
  port = pos 0;
  created_at = now;
  last_seen = now;
  pending_messages = pos 0;
  ghost_count = pos 0;
  ip = [];
  public_key = [];
  name = [];
}

unfoldable pub state_add_peer : Bytes → ℤ → Store → Code × Store
state_add_peer id now s =
    let norm_id = normalize_id id in
    if is_empty norm_id then (err, s) else elim (find_peer s.peer_count s.peers norm_id) [
      | some i ↦ (ok, s)
      | none ↦ if leb max_peers s.peer_count then (err, s) else (
        ok,
        record s {
          peers = set s.peers s.peer_count (fresh_peer (peer_at s s.peer_count) norm_id now);
          peer_count = s.peer_count + 1;
        },
      )
    ]

-- What `state_update_peer` writes to the slot it found.
abbrev pub updated_peer : PeerState → ℤ → Peer → Peer
updated_peer state now p = record p {
  state = state;
  last_seen = now;
  friend_since = if is_friend_state state then now else p.friend_since;
}

unfoldable pub state_update_peer : Bytes → PeerState → ℤ → Store → Code × Store
state_update_peer id state now s =
    let norm_id = normalize_id id in
    if is_empty norm_id then (err, s) else elim (find_peer s.peer_count s.peers norm_id) [
      | none ↦ (err, s)
      | some i ↦ (ok, put_peer s i (updated_peer state now (peer_at s i)))
    ]

-- `for (j = i; j < g_peer_count - 1; j++) g_peers[j] = g_peers[j + 1];` over `n` rounds.
unfoldable pub shift_left : ℕ → ℕ → List Peer → List Peer
shift_left zero j ps = ps
shift_left (suc n) j ps = shift_left n (suc j) (set ps j (get_or ps (suc j) zero_peer))

unfoldable pub state_remove_peer : Bytes → Store → Code × Store
state_remove_peer id s =
    let norm_id = normalize_id id in
    if is_empty norm_id then (err, s) else elim (find_peer s.peer_count s.peers norm_id) [
      | none ↦ (err, s)
      | some i ↦ (
        ok,
        record s {
          peers = shift_left (s.peer_count - 1 - i) i s.peers;
          peer_count = s.peer_count - 1;
        },
      )
    ]
