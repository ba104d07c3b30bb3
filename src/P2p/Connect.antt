-- ===== src/P2p/Connect.antt =====
-- p2p_manager.c: what the program asks of the P2P manager.
use orcashi.Prelude.{
  ℕ, ℤ, Bool, true, false, not, ◌||◌, Option, none, some, [], ◌∷◌, ◌++◌, leb, if◌then◌else◌, Code,
  ok, err, map, take, drop,
}
use orcashi.CString.Text.{Bytes, is_empty}
use orcashi.CString.Memory.{Run, done, blocked, ◌>>=◌, strcpy}
use orcashi.State.Types.{friend}
use orcashi.State.Ids.{normalize_id}
use orcashi.Events.Types.{accept_confirm, peer_offline, event_create}
use orcashi.Events.World.{update_peer, set_online, push_event}
use orcashi.P2p.Types.{
  P2pPeer, disconnected, connecting, handshake, established, state_rank, is_established,
  is_handshake, Manager, Host,
}
use orcashi.P2p.Table.{and_then, lock, unlock, peer_at, put_peer, act, find_peer, add_peer}
use orcashi.P2p.Channel.{
  send_message, send_handshake, establish_secure_channel, type_data, type_close,
}

-- `peer && peer->state >= P2P_STATE_HANDSHAKE`
unfoldable pub is_underway : Option ℕ → Manager → Bool
is_underway none m = false
is_underway (some i) m = leb 2 (state_rank (peer_at m i).state)

-- The peer as `p2p_connect` fills it in.
abbrev pub calling_peer : ℤ → Bytes → ℤ → P2pPeer → P2pPeer
calling_peer now ip port p = record p {
  ip = ip;
  port = port;
  state = connecting;
  is_initiator = true;
  last_activity = now;
  addr = (ip, port);
}

abbrev pub give_up : ℕ → Manager → Manager
give_up i m = put_peer m i (record (peer_at m i) { udp_socket = none; state = disconnected })

-- The part of `p2p_connect` behind the socket.
unfoldable pub call_peer : Host → ℕ → Manager → Run (Code × Manager)
unfolding send_handshake
call_peer h i m = elim (h.hole_punch (peer_at m i).ip (peer_at m i).port) [
  | err ↦ done (err, give_up i m)
  | ok ↦ send_handshake h i m >>= λ (code, m1). elim code [
    | err ↦ done (err, give_up i m1)
    | ok ↦ done (ok, put_peer m1 i (record (peer_at m1 i) { state = handshake }))
  ]
]

-- The part of `p2p_connect` behind `add_peer`.
unfoldable pub start_call : Host → Bytes → ℤ → ℕ → Manager → Run (Code × Manager)
unfolding call_peer
start_call h ip port i m2 = strcpy 16 ip >>= λ copy.
    let m3 = put_peer m2 i (calling_peer h.now copy port (peer_at m2 i)) in
    elim h.new_socket [
      | none ↦
          done
            (err, put_peer m3 i (record (peer_at m3 i) { udp_socket = none; state = disconnected }))
      | some fd ↦ call_peer h i (put_peer m3 i (record (peer_at m3 i) { udp_socket = some fd }))
    ]

unfoldable pub p2p_connect : Host → Bytes → Manager → Run (Code × Manager)
unfolding is_underway start_call
p2p_connect h peer_id m =
    if not m.initialized
    then done (err, m)
    else (find_peer (normalize_id peer_id) m >>= λ (found, m1).
        if is_underway found m1 then done (ok, m1) else elim (h.dht_lookup (normalize_id peer_id)) [
          | none ↦ done (err, m1)
          | some (ip, port) ↦ add_peer h.now (normalize_id peer_id) m1 >>= λ (entry, m2).
              elim entry [ none ↦ done (err, m2) | some i ↦ start_call h ip port i m2 ]
        ])

unfoldable pub p2p_accept : Host → Bytes → Manager → Run (Code × Manager)
unfolding find_peer establish_secure_channel
p2p_accept h peer_id m = find_peer (normalize_id peer_id) m >>= λ (found, m1). elim found [
  | none ↦ done (err, m1)
  | some i ↦
      if not (is_handshake (peer_at m1 i).state)
      then done (err, m1)
      else done (
          and_then (establish_secure_channel h i m1) λ m2. (
            ok,
            act h.now
                (update_peer (normalize_id peer_id) friend
                  ∷ push_event (event_create accept_confirm (normalize_id peer_id) h.now)
                  ∷ [])
                (put_peer m2 i (record (peer_at m2 i) {
                  state = established;
                  is_secure = true;
                  last_activity = h.now;
                })),
          ))
]

-- Closing the socket of a peer, which is told of it first.
unfoldable pub hang_up : Host → ℕ → Manager → Manager
unfolding send_message
hang_up h i m = elim (peer_at m i).udp_socket [
  | none ↦ m
  | some fd ↦
      let m1 = (send_message h i type_close (0 ∷ []) m).1 in
      put_peer m1 i (record (peer_at m1 i) { udp_socket = none })
]

unfoldable pub p2p_disconnect : Host → Bytes → Manager → Run (Code × Manager)
unfolding find_peer hang_up
p2p_disconnect h peer_id m = find_peer (normalize_id peer_id) m >>= λ (found, m1). elim found [
  | none ↦ done (err, m1)
  | some i ↦
      let m2 = hang_up h i m1 in
      done (
        ok,
        act h.now
            (set_online (normalize_id peer_id) false
              ∷ push_event (event_create peer_offline (normalize_id peer_id) h.now)
              ∷ [])
            (put_peer m2 i (record (peer_at m2 i) {
              state = disconnected;
              is_secure = false;
              last_activity = h.now;
            })),
      )
]

-- `p2p_send_secure` where the peer is found: nonce, tag and ciphertext in one message.
unfoldable pub send_sealed : Host → ℕ → Bytes → Manager → Code × Manager
unfolding send_message
send_sealed h i text m =
    if not (is_established (peer_at m i).state) || not (peer_at m i).is_secure
    then (err, m)
    else elim (h.encrypt text (peer_at m i).aes_key h.random_nonce) [
      | none ↦ (err, m)
      | some (tag, ciphertext) ↦
          if not h.memory
          then (err, m)
          else send_message h i type_data (h.random_nonce ++ (tag ++ ciphertext)) m
    ]

unfoldable pub p2p_send_secure : Host → Bytes → Bytes → Manager → Run (Code × Manager)
unfolding find_peer send_sealed
p2p_send_secure h peer_id text m =
    if is_empty text
    then done (err, m)
    else (find_peer (normalize_id peer_id) m >>= λ (found, m1). elim found [
      | none ↦ done (err, m1)
      | some i ↦ done (send_sealed h i text m1)
    ])

unfoldable pub p2p_send : Host → Bytes → Bytes → Manager → Run (Code × Manager)
unfolding p2p_send_secure
p2p_send h peer_id message m = find_peer (normalize_id peer_id) m >>= λ (found, m1). elim found [
  | none ↦ done (err, m1)
  | some i ↦
      if not (is_established (peer_at m1 i).state)
      then done (err, m1)
      else if (peer_at m1 i).is_secure
      then p2p_send_secure h peer_id message m1
      else done (send_message h i type_data message m1)
]

-- `p2p_recv` hands out nothing.
unfoldable pub p2p_recv : Bytes → Manager → Run (Code × Manager)
unfolding find_peer
p2p_recv peer_id m = find_peer (normalize_id peer_id) m >>= λ (found, m1). elim found [
  | none ↦ done (err, m1)
  | some i ↦ done (if is_established (peer_at m1 i).state then ok else err, m1)
]

abbrev pub closed : P2pPeer → P2pPeer
closed p = record p { udp_socket = none }

-- Where the listener's thread or that of the keepalives does not end, `pthread_join` waits for ever.
unfoldable pub p2p_cleanup : Host → Manager → Run Manager
unfolding lock
p2p_cleanup h m =
    if not m.initialized
    then done m
    else if not h.threads_end
    then blocked
    else (lock m >>= λ m1. done (record (unlock m1) {
      peers = map closed (take m1.peer_count m1.peers) ++ drop m1.peer_count m1.peers;
      peer_count = 0;
      initialized = false;
    }))

-- What `p2p_init` does to the data that is modelled. The local address, the port, the NAT type, IPv6
-- and UPnP, which it also finds out, and the threads, which it starts, are left out.
unfoldable pub p2p_init : Host → Manager → Code × Manager
p2p_init h m =
    if m.initialized
    then (ok, m)
    else elim h.new_socket [ none ↦ (err, m) | some fd ↦ (ok, record m { initialized = true }) ]
