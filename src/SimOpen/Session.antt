-- ===== src/SimOpen/Session.antt =====
-- simultaneous_open.c: the operations on a session, one packet at a time.
use orcashi.Prelude.{
  ℕ, ℤ, pos, Bool, false, not, ◌||◌, Option, none, some, [], ◌∷◌, ◌++◌, ◌==◌, ltb, if◌then◌else◌,
  Code, ok, err, is_positive, length, min,
}
use orcashi.CString.Text.{Bytes, is_empty}
use orcashi.CString.Memory.{Run, done, overrun, ◌>>=◌, strcpy, read_bytes}
use orcashi.SimOpen.Types.{
  SimOpenState, idle, established, is_established, is_syncing, Session, Net, Reception, failure,
  nothing, ending, bytes,
}
use orcashi.SimOpen.Packet.{SimPacket, sim_magic, packet_len, read_packet, build_packet}

-- The types of `SimPacketType`.
abbrev pub type_sync : ℕ
type_sync = 1

abbrev pub type_sync_ack : ℕ
type_sync_ack = 2

abbrev pub type_sync_confirm : ℕ
type_sync_confirm = 3

abbrev pub type_data : ℕ
type_data = 4

abbrev pub type_close : ℕ
type_close = 6

-- A session that is set to 0.
abbrev pub zero_session : Session
zero_session = record {
  target_ip = [];
  target_port = pos 0;
  local_port = 0;
  socket_fd = some 0;
  state = idle;
  sync_token = 0;
  start_time = pos 0;
  last_activity = pos 0;
  retry_count = 0;
  is_initiator = false;
  peer_ip = [];
  peer_port = pos 0;
  sent = [];
}

-- `target_ip` has 16 bytes.
unfoldable pub simultaneous_open_init : Bytes → ℤ → Session → Run (Code × Session)
simultaneous_open_init target_ip target_port s =
    if not (is_positive target_port) then done (err, s) else (do
      ip ← strcpy 16 target_ip
      done (
        ok,
        record zero_session {
          target_ip = ip;
          target_port = target_port;
          state = idle;
          socket_fd = none;
        },
      ))

unfoldable pub simultaneous_open_cleanup : Session → Session
simultaneous_open_cleanup s = record s { socket_fd = none; state = idle }

unfoldable pub simultaneous_open_send_packet : Net → ℕ → Bytes → Session → Code × Session
simultaneous_open_send_packet h type payload s = elim s.socket_fd [
  | none ↦ (err, s)
  | some fd ↦ if not h.memory || not h.sends then (err, s) else (
    ok,
    record s {
      sent = s.sent ++ (build_packet h.now type s.sync_token payload ∷ []);
      last_activity = h.now;
    },
  )
]

-- A packet of type SYNC: its token replaces the session's.
abbrev pub take_sync : Net → ℕ → Session → Session
take_sync h token s =
    let s1 =
      (simultaneous_open_send_packet h type_sync_ack [] (record s { sync_token = token })).1 in
    if is_syncing s1.state then record s1 { state = established } else s1

abbrev pub take_sync_ack : Net → ℕ → Session → Session
take_sync_ack h token s =
    if s.sync_token == token
    then record ((simultaneous_open_send_packet h type_sync_confirm [] s).1) { state = established }
    else s

-- The switch over the type of a packet.
unfoldable pub take_packet : Net → SimPacket → Session → Session
unfolding simultaneous_open_send_packet
take_packet h packet s =
    if packet.type == 1
    then take_sync h packet.sync_token s
    else if packet.type == 2
    then take_sync_ack h packet.sync_token s
    else if packet.type == 3
    then (if is_syncing s.state then record s { state = established } else s)
    else if packet.type == 6
    then record s { state = idle }
    else s

unfoldable pub simultaneous_open_process_packet : Net → SimPacket → ℕ → Session → Code × Session
unfolding take_packet
simultaneous_open_process_packet h packet len s =
    if ltb len packet_len || (not (packet.magic == sim_magic) || not (packet.version == 1))
    then (err, s)
    else (ok, take_packet h packet (record s { last_activity = h.now }))

-- A buffer of fewer than 16 bytes holds no packet; what comes of `n <= 0` and of a failure of
-- `select` is the same.
unfoldable pub simultaneous_open_wait_for_sync : Net → Reception → Session → Code × Session
unfolding simultaneous_open_process_packet
simultaneous_open_wait_for_sync h (bytes b) s = elim s.socket_fd [
  | none ↦ (err, s)
  | some fd ↦ elim (read_packet b) [
    | none ↦ (err, s)
    | some (packet, payload) ↦ simultaneous_open_process_packet h packet (length b) s
  ]
]
simultaneous_open_wait_for_sync h _ s = (err, s)

unfoldable pub simultaneous_open_send : Net → Bytes → Session → Code × Session
unfolding simultaneous_open_send_packet
simultaneous_open_send h payload s =
    if is_empty payload || not (is_established s.state)
    then (err, s)
    else simultaneous_open_send_packet h type_data payload s

-- A packet in the 512 bytes of `recv_buffer`, of which the first `n` were received: the bytes that
-- the caller gets, where there are any.
unfoldable pub take_received : Net → ℕ → ℕ → SimPacket → Bytes → Session → Run (Bytes × Session)
unfolding simultaneous_open_process_packet
take_received h max_len n packet payload s =
    if not (packet.magic == sim_magic)
    then done ([], s)
    else if packet.type == 4
    then (read_bytes 0 (min packet.payload_len max_len) payload >>= λ copy.
        done (copy, record s { last_activity = h.now }))
    else done ([], (simultaneous_open_process_packet h packet n s).1)

-- What recv() gives here: besides the bytes received, what the rest of `recv_buffer` happens to
-- hold. The result is the code and the bytes that the caller gets.
unfoldable pub simultaneous_open_recv :
    Net → ℕ → Reception → Bytes → Session → Run (Code × (Bytes × Session))
unfolding take_received
simultaneous_open_recv h max_len reception stale s =
    if max_len == 0 || not (is_established s.state) then done (err, ([], s)) else elim reception [
      | failure ↦ done (err, ([], s))
      | nothing ↦ done (ok, ([], s))
      | ending ↦ done (ok, ([], record s { state = idle }))
      | bytes b ↦
          if ltb (length b) packet_len
          then done (ok, ([], s))
          else elim (read_packet (b ++ stale)) [
            | none ↦ overrun
            | some (packet, payload) ↦
                take_received h max_len (length b) packet payload s >>= λ r. done (ok, r)
          ]
    ]

unfoldable pub simultaneous_open_close : Net → Session → Code × Session
unfolding simultaneous_open_send_packet
simultaneous_open_close h s = elim s.socket_fd [
  | none ↦ (ok, record s { state = idle })
  | some fd ↦ (
    ok,
    record ((simultaneous_open_send_packet h type_close [] s).1) { socket_fd = none; state = idle },
  )
]

unfoldable pub simultaneous_open_is_connected : Session → Bool
simultaneous_open_is_connected s = is_established s.state

unfoldable pub simultaneous_open_get_state : Session → SimOpenState
simultaneous_open_get_state s = s.state

-- The address and the port, where it is 0 that is returned.
unfoldable pub simultaneous_open_get_peer : Session → Option (Bytes × ℤ)
simultaneous_open_get_peer s =
    if is_established s.state then some (s.peer_ip, s.peer_port) else none
