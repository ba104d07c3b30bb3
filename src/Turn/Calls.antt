-- ===== src/Turn/Calls.antt =====
-- turn_client.c: what the program asks of the TURN connections, and a datagram at the listener.
use orcashi.Prelude.{
  get_or, ℕ, zero, suc, ◌+◌, ℤ, Bool, not, ◌||◌, Option, none, some, [], ◌∷◌, ◌++◌, ◌==◌, ltb, min,
  length, if◌then◌else◌, Code, ok, err,
}
use orcashi.CString.Text.{Bytes, is_empty}
use orcashi.CString.Memory.{Run, done, overrun, read_bytes, ◌>>=◌}
use orcashi.CString.Address.{Ipv4, inet_pton}
use orcashi.P2p.Types.{u32}
use orcashi.Turn.Types.{
  TurnState, TurnSession, TurnManager, Net, connecting, established, error, is_established,
  zero_server,
}
use orcashi.Turn.Table.{
  session_at, put_session, find_server, find_entry, turn_find_session, turn_add_session,
}
use orcashi.Turn.Request.{
  send_indication, refresh_request, turn_build_allocate_request, magic_cookie,
}
use orcashi.Turn.Response.{
  read_message, walk, find_data, turn_parse_allocate_response, turn_process_message, attributes,
}

-- Sending a request for an allocation: the index of the session that waits for the answer, if it is sent.
unfoldable pub send_allocate : Net → Bytes → TurnManager → Option ℕ × TurnManager
unfolding turn_find_session turn_build_allocate_request
send_allocate net peer_id m = elim (turn_find_session peer_id m) [
  | none ↦ (none, m)
  | some i ↦
      let s = session_at m i in
      if net.sends
      then (
        some i,
        record m {
          sent =
              m.sent
              ++ ((
                (s.server.server_ip, s.server.port),
                turn_build_allocate_request net.random net.stack s.server,
              )
                  ∷ []);
        },
      )
      else (none, m)
]

abbrev pub set_state : TurnState → TurnSession → TurnSession
set_state state s = record s { state = state }

-- `turn_connect` up to its wait for an answer: it fails, it is connected already, or the session `i` waits for the answer of its server.
pub data Begun : Type 0 where
  failed already : Begun
  waiting : ℕ → Begun

unfoldable pub ask_server : Net → Bytes → Bytes → ℕ → TurnManager → Begun × TurnManager
unfolding send_allocate find_entry
ask_server net peer_id host i m =
    if is_established (session_at m i).state then (already, m) else elim (find_server host m) [
      | none ↦ (failed, m)
      | some j ↦
          let m1 = put_session m i (record (session_at m i) {
            server = get_or m.servers j zero_server;
            state = connecting;
          }) in
          let (asked, m2) = send_allocate net peer_id m1 in
          elim asked [
            | some k ↦ (waiting i, m2)
            | none ↦ (failed, put_session m2 i (set_state error (session_at m2 i)))
          ]
    ]

unfoldable pub begin_connect : Net → Bytes → Bytes → TurnManager → Run (Begun × TurnManager)
unfolding turn_find_session turn_add_session ask_server
begin_connect net peer_id host m = elim (turn_find_session peer_id m) [
  | some i ↦ done (ask_server net peer_id host i m)
  | none ↦ turn_add_session net.now peer_id m >>= λ (found, m1). elim found [
    | none ↦ done (failed, m1)
    | some i ↦ done (ask_server net peer_id host i m1)
  ]
]

-- `turn_connect` behind its wait: what was received within the time, if anything was.
unfoldable pub finish_connect :
    Net → ℕ → Option (ℕ × Bytes) → TurnManager → Run (Code × TurnManager)
unfolding turn_parse_allocate_response
finish_connect net i none m = done (err, put_session m i (set_state error (session_at m i)))
finish_connect net i (some (n, buffer)) m =
    turn_parse_allocate_response net.now n buffer (session_at m i) >>= λ (code, s).
    done (elim code [
      | ok ↦ (ok, put_session m i (record s { state = established; last_activity = net.now }))
      | err ↦ (err, put_session m i (set_state error s))
    ])

unfoldable pub turn_refresh_allocation : Net → Bytes → TurnManager → Code × TurnManager
unfolding turn_find_session refresh_request
turn_refresh_allocation net peer_id m = elim (turn_find_session peer_id m) [
  | none ↦ (err, m)
  | some i ↦
      let s = session_at m i in
      if not (is_established s.state)
      then (err, m)
      else if net.sends
      then (
        ok,
        record m {
          sent =
              m.sent
              ++ ((
                (s.server.server_ip, s.server.port),
                refresh_request net.random net.stack s.server,
              )
                  ∷ []);
        },
      )
      else (err, m)
]

-- What recvfrom gives: an error, nothing to read yet, or `n` bytes at the start of the buffer of 4096.
pub data Received : Type 0 where
  fault would_block : Received
  bytes : ℕ → Bytes → Received

pub data Handed : Type 0 where
  refused nothing : Handed
  copied : Bytes → Handed

unfoldable pub take_data : ℤ → ℕ → ℕ → ℕ → Bytes → TurnManager → Run (Handed × TurnManager)
unfolding read_message find_data attributes
take_data now i max_len n buffer m =
    if ltb n 20 then done (refused, m) else elim (read_message buffer) [
      | none ↦ overrun
      | some (msg, rest) ↦
          if msg.type == 23
          then (find_data (walk msg rest) >>= λ found. elim found [
            | none ↦ done (nothing, m)
            | some (len, value) ↦ read_bytes 0 (min len max_len) value >>= λ copy.
                done
                  (copied copy, put_session m i (record (session_at m i) { last_activity = now }))
          ])
          else done (nothing, m)
    ]

unfoldable pub turn_recv : ℤ → Bytes → ℕ → Received → TurnManager → Run (Handed × TurnManager)
unfolding turn_find_session take_data
turn_recv now peer_id max_len received m =
    if max_len == 0 then done (refused, m) else elim (turn_find_session peer_id m) [
      | none ↦ done (refused, m)
      | some i ↦
          if is_established (session_at m i).state
          then elim received [
            | fault ↦ done (refused, m)
            | would_block ↦ done (nothing, m)
            | bytes n buffer ↦ take_data now i max_len n buffer m
          ]
          else done (refused, m)
    ]

-- The loop of the listener over `n` sessions from `i` on.
unfoldable pub process_all : ℤ → ℕ → Bytes → ℕ → ℕ → TurnManager → Run TurnManager
unfolding turn_process_message
process_all now len buffer zero i m = done m
process_all now len buffer (suc n) i m =
    if is_established (session_at m i).state
    then (turn_process_message now len buffer (session_at m i) >>= λ s.
        process_all now len buffer n (suc i) (put_session m i s))
    else process_all now len buffer n (suc i) m

unfoldable pub turn_listen : ℤ → ℕ → Bytes → TurnManager → Run TurnManager
unfolding process_all read_message
turn_listen now n buffer m = if ltb n 20 then done m else elim (read_message buffer) [
  | none ↦ overrun
  | some (msg, rest) ↦
      if msg.cookie == magic_cookie then process_all now n buffer m.count 0 m else done m
]

abbrev pub address_of : Ipv4 → Bytes → Ipv4
address_of unset ip = elim (inet_pton ip) [ none ↦ unset | some a ↦ a ]

abbrev pub is_nowhere : TurnSession → Bool
is_nowhere s = is_empty s.relay_ip || (u32 s.relay_port == 0)

-- `unset` is what `ip_addr` holds where the text is no address. A text of more than 2012 bytes does not fit the buffer of 2048.
unfoldable pub turn_send : Net → Ipv4 → Bytes → Bytes → TurnManager → Run (Code × TurnManager)
unfolding turn_find_session send_indication
turn_send net unset peer_id text m =
    if is_empty text then done (err, m) else elim (turn_find_session peer_id m) [
      | none ↦ done (err, m)
      | some i ↦
          let s = session_at m i in
          if not (is_established s.state) || is_nowhere s
          then done (err, m)
          else if ltb 2048 (36 + length text)
          then overrun
          else if net.sends
          then done (
            ok,
            record (put_session m i (record s { last_activity = net.now })) {
              sent =
                  m.sent
                  ++ ((
                    (s.relay_ip, s.relay_port),
                    send_indication net.random net.stack (address_of unset s.ip) s.port text,
                  )
                      ∷ []);
            },
          )
          else done (err, m)
    ]
