-- ===== src/Turn/Table.antt =====
-- turn_client.c: the servers, and the table of sessions. A pointer into it is the index.
use mathlib.Core.Option
use orcashi.Prelude.{
  ℕ, zero, suc, ◌+◌, ◌-◌, ◌||◌, ℤ, Bool, true, false, Option, none, some, List, [], ◌∷◌, leb,
  if◌then◌else◌, get_or, set, Code, ok, err, is_positive,
}
use orcashi.CString.Text.{Bytes, str_eq, fit}
use orcashi.CString.Memory.{Run, done, strcpy, ◌>>=◌}
use orcashi.Turn.Types.{
  TurnState, TurnServerConfig, TurnSession, TurnManager, Net, idle, closed, zero_session,
  zero_server, is_established, turn_server_max, turn_max_sessions, turn_default_port,
}

abbrev pub session_at : TurnManager → ℕ → TurnSession
session_at m i = get_or m.sessions i zero_session

abbrev pub put_session : TurnManager → ℕ → TurnSession → TurnManager
put_session m i s = record m { sessions = set m.sessions i s }

-- The first of `n` entries that passes a test.
unfoldable pub find_entry : {A : Type 0} → (A → Bool) → ℕ → List A → Option ℕ
find_entry test zero xs = none
find_entry test (suc n) [] = none
find_entry test (suc n) (x ∷ xs) = if test x then some 0 else Option.map suc (find_entry test n xs)

unfoldable pub turn_find_session : Bytes → TurnManager → Option ℕ
unfolding find_entry
turn_find_session peer_id m = find_entry (λ s. str_eq s.peer_id peer_id) m.count m.sessions

abbrev pub fresh_session : ℤ → Bytes → TurnSession
fresh_session now peer_id = record zero_session {
  peer_id = peer_id;
  state = idle;
  socket_fd = none;
  created_at = now;
  last_activity = now;
}

unfoldable pub turn_add_session : ℤ → Bytes → TurnManager → Run (Option ℕ × TurnManager)
turn_add_session now peer_id m =
    if leb turn_max_sessions m.count
    then done (none, m)
    else strcpy 64 peer_id >>= λ copy. done (
      some m.count,
      record m { sessions = set m.sessions m.count (fresh_session now copy); count = m.count + 1 },
    )

-- `strncpy` of a text that may be missing, where the flag is set.
abbrev pub fill_name : Option Bytes → Bytes → Bytes
fill_name none old = old
fill_name (some t) old = fit 64 t

abbrev pub is_given : Option Bytes → Bool
is_given none = false
is_given (some t) = true

abbrev pub filled : Bytes → ℤ → Option Bytes → Option Bytes → TurnServerConfig → TurnServerConfig
filled host port username password s = record s {
  server_host = fit 128 host;
  port = if is_positive port then port else turn_default_port;
  lifetime = 3600;
  username = fill_name username s.username;
  password = fill_name password s.password;
  use_auth = s.use_auth || (is_given username || is_given password);
}

-- A server whose name is not resolved stays written behind the ones in use.
unfoldable pub turn_manager_add_server :
    Net → Bytes → ℤ → Option Bytes → Option Bytes → TurnManager → Code × TurnManager
turn_manager_add_server net host port username password m =
    if leb turn_server_max m.server_count
    then (err, m)
    else let s = filled host port username password (get_or m.servers m.server_count zero_server) in
      elim (net.resolve host) [
        | none ↦ (err, record m { servers = set m.servers m.server_count s })
        | some ip ↦ (
          ok,
          record m {
            servers = set m.servers m.server_count (record s { server_ip = fit 16 ip });
            server_count = m.server_count + 1;
          },
        )
      ]

abbrev pub find_server : Bytes → TurnManager → Option ℕ
find_server host m = find_entry (λ s. str_eq s.server_host host) m.server_count m.servers

unfoldable pub turn_manager_set_server_lifetime : Bytes → ℕ → TurnManager → Code × TurnManager
unfolding find_entry
turn_manager_set_server_lifetime host lifetime m = elim (find_server host m) [
  | none ↦ (err, m)
  | some i ↦ (
    ok,
    record m {
      servers = set m.servers i (record (get_or m.servers i zero_server) { lifetime = lifetime });
    },
  )
]

-- `for (j = i; j < count - 1; j++) sessions[j] = sessions[j + 1];` over `n` rounds.
unfoldable pub shift_sessions : ℕ → ℕ → List TurnSession → List TurnSession
shift_sessions zero j ss = ss
shift_sessions (suc n) j ss = shift_sessions n (suc j) (set ss j (get_or ss (suc j) zero_session))

unfoldable pub turn_disconnect : Bytes → TurnManager → Code × TurnManager
unfolding turn_find_session shift_sessions
turn_disconnect peer_id m = elim (turn_find_session peer_id m) [
  | none ↦ (ok, m)
  | some i ↦ (
    ok,
    record m {
      sessions =
          shift_sessions (m.count - 1 - i) i
            (set m.sessions i (record (session_at m i) { state = closed }));
      count = m.count - 1;
    },
  )
]

unfoldable pub turn_is_connected : TurnManager → Bytes → Bool
unfolding turn_find_session
turn_is_connected m peer_id = elim (turn_find_session peer_id m) [
  | none ↦ false
  | some i ↦ is_established (session_at m i).state
]

unfoldable pub turn_get_state : TurnManager → Bytes → TurnState
unfolding turn_find_session
turn_get_state m peer_id = elim (turn_find_session peer_id m) [
  | none ↦ idle
  | some i ↦ (session_at m i).state
]

-- The address of the relay, where there is a connection.
unfoldable pub turn_get_external_address : TurnManager → Bytes → Option (Bytes × ℤ)
unfolding turn_find_session
turn_get_external_address m peer_id = elim (turn_find_session peer_id m) [
  | none ↦ none
  | some i ↦
      if is_established (session_at m i).state
      then some ((session_at m i).relay_ip, (session_at m i).relay_port)
      else none
]
