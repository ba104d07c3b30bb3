-- ===== src/Relay/Table.antt =====
-- friend_relay.c: the table of sessions. A pointer into it is the index.
use orcashi.Prelude.{
  ℕ, zero, suc, ◌+◌, ◌-◌, ℤ, Bool, true, false, Option, none, some, List, [], ◌∷◌, leb,
  if◌then◌else◌, get_or, set, Code, ok, err, replicate, map, take, drop, ◌++◌,
}
use mathlib.Core.Option
use orcashi.CString.Text.{Bytes, str_eq}
use orcashi.CString.Memory.{Run, done, strcpy, ◌>>=◌}
use orcashi.Relay.Types.{
  RelayState, RelaySession, RelayManager, Net, idle, closed, zero_session, is_established,
  relay_max_peers, relay_max_path,
}

abbrev pub session_at : RelayManager → ℕ → RelaySession
session_at m i = get_or m.sessions i zero_session

abbrev pub put_session : RelayManager → ℕ → RelaySession → RelayManager
put_session m i s = record m { sessions = set m.sessions i s }

-- The first of `n` sessions that passes a test.
unfoldable pub find_session : (RelaySession → Bool) → ℕ → List RelaySession → Option ℕ
find_session test zero ss = none
find_session test (suc n) [] = none
find_session test (suc n) (s ∷ ss) =
    if test s then some 0 else Option.map suc (find_session test n ss)

abbrev pub is_with : Bytes → RelaySession → Bool
is_with peer_id s = str_eq s.peer_id peer_id

unfoldable pub relay_find_session : Bytes → RelayManager → Option ℕ
unfolding find_session
relay_find_session peer_id m = find_session (is_with peer_id) m.count m.sessions

abbrev pub fresh_session : Net → Bytes → RelaySession
fresh_session net peer_id = record zero_session {
  peer_id = peer_id;
  state = idle;
  socket_fd = none;
  created_at = net.now;
  last_activity = net.now;
  session_id = net.new_id;
  hop_count = 0;
}

unfoldable pub relay_add_session : Net → Bytes → RelayManager → Run (Option ℕ × RelayManager)
relay_add_session net peer_id m =
    if leb relay_max_peers m.count
    then done (none, m)
    else strcpy 64 peer_id >>= λ copy. done (
      some m.count,
      record m { sessions = set m.sessions m.count (fresh_session net copy); count = m.count + 1 },
    )

unfoldable pub find_or_add : Net → Bytes → RelayManager → Run (Option ℕ × RelayManager)
unfolding relay_find_session relay_add_session
find_or_add net peer_id m = elim (relay_find_session peer_id m) [
  | some i ↦ done (some i, m)
  | none ↦ relay_add_session net peer_id m
]

-- `for (j = i; j < count - 1; j++) sessions[j] = sessions[j + 1];` over `n` rounds.
unfoldable pub shift_sessions : ℕ → ℕ → List RelaySession → List RelaySession
shift_sessions zero j ss = ss
shift_sessions (suc n) j ss = shift_sessions n (suc j) (set ss j (get_or ss (suc j) zero_session))

-- `if (socket_fd > 0) { close(socket_fd); socket_fd = -1; }`
abbrev pub close_socket : Option ℕ → Option ℕ
close_socket none = none
close_socket (some zero) = some zero
close_socket (some (suc fd)) = none

abbrev pub shut : RelaySession → RelaySession
shut s = record s { state = closed; socket_fd = close_socket s.socket_fd }

unfoldable pub relay_disconnect : Bytes → RelayManager → Code × RelayManager
unfolding relay_find_session shift_sessions
relay_disconnect peer_id m = elim (relay_find_session peer_id m) [
  | none ↦ (ok, m)
  | some i ↦ (
    ok,
    record m {
      sessions = shift_sessions (m.count - 1 - i) i (set m.sessions i (shut (session_at m i)));
      count = m.count - 1;
    },
  )
]

abbrev pub begun : Net → Bytes → ℤ → RelayManager → RelayManager
begun net my_id port m = record {
  sessions = replicate 32 zero_session;
  count = 0;
  initialized = true;
  is_relay_node = false;
  my_id = my_id;
  relay_port = port;
  relay_socket = net.new_socket;
  sent = m.sent;
}

unfoldable pub relay_manager_init : Net → Bytes → ℤ → RelayManager → Run (Code × RelayManager)
relay_manager_init net my_id port m = strcpy 64 my_id >>= λ copy.
    done (elim net.new_socket [ none ↦ err | some fd ↦ ok ], begun net copy port m)

abbrev pub without_socket : RelaySession → RelaySession
without_socket s = record s { socket_fd = close_socket s.socket_fd }

unfoldable pub relay_manager_cleanup : RelayManager → RelayManager
relay_manager_cleanup m =
    if m.initialized
    then record m {
      sessions = map without_socket (take m.count m.sessions) ++ drop m.count m.sessions;
      count = 0;
      relay_socket = none;
      initialized = false;
    }
    else m

-- The announcements to the DHT are left out.
unfoldable pub relay_manager_enable_relay : Bool → RelayManager → Code × RelayManager
relay_manager_enable_relay enable m =
    if m.initialized then (ok, record m { is_relay_node = enable }) else (err, m)

unfoldable pub relay_is_connected : RelayManager → Bytes → Bool
unfolding relay_find_session
relay_is_connected m peer_id = elim (relay_find_session peer_id m) [
  | none ↦ false
  | some i ↦ is_established (session_at m i).state
]

unfoldable pub relay_get_state : RelayManager → Bytes → RelayState
unfolding relay_find_session
relay_get_state m peer_id = elim (relay_find_session peer_id m) [
  | none ↦ idle
  | some i ↦ (session_at m i).state
]

unfoldable pub relay_get_peer_count : RelayManager → ℕ
relay_get_peer_count m = m.count

-- The number of the hops and the texts that are copied out.
unfoldable pub relay_get_relay_path : RelayManager → Bytes → Option (ℕ × List Bytes)
unfolding relay_find_session
relay_get_relay_path m peer_id = elim (relay_find_session peer_id m) [
  | none ↦ none
  | some i ↦ some (
    (session_at m i).hop_count,
    take (session_at m i).hop_count (take relay_max_path (session_at m i).path),
  )
]
