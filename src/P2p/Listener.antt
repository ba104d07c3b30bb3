-- ===== src/P2p/Listener.antt =====
-- p2p_manager.c: the listener and the keepalives, each over one round of its loop.
use orcashi.Prelude.{
  ℕ, zero, suc, ℤ, pos, negsuc, sub_nat, add_nat, is_positive, Bool, false, not, ◌&&◌, none, some,
  [], ◌∷◌, ◌++◌, ◌==◌, ltb, if◌then◌else◌, take,
}
use orcashi.CString.Text.{Bytes, str_eq}
use orcashi.CString.Memory.{Run, done, overrun, ◌>>=◌}
use orcashi.Events.Types.{peer_offline, event_create}
use orcashi.Events.World.{set_online, push_event}
use orcashi.P2p.Types.{P2pPeer, handshake, disconnected, is_established, Manager, Host}
use orcashi.P2p.Message.{p2p_magic, header_len, read_message}
use orcashi.P2p.Table.{lock, unlock, peer_at, put_peer, act, find_index, add_peer}
use orcashi.P2p.Channel.{send_message, type_keepalive}
use orcashi.P2p.Handlers.{split_bar, process_message}

abbrev pub same_int : ℤ → ℤ → Bool
same_int (pos m) (pos n) = m == n
same_int (negsuc m) (negsuc n) = m == n
same_int (pos m) (negsuc n) = false
same_int (negsuc m) (pos n) = false

-- `now - then`
abbrev pub elapsed : ℤ → ℤ → ℤ
elapsed now (pos n) = sub_nat now n
elapsed now (negsuc n) = add_nat now (suc n)

abbrev pub has_address : Bytes → ℤ → P2pPeer → Bool
has_address ip port p = same_int p.port port && str_eq p.ip ip

-- A peer that was met by its handshake, as the listener fills it in.
abbrev pub met_peer : ℤ → Bytes → ℤ → P2pPeer → P2pPeer
met_peer now ip port p = record p {
  ip = ip;
  port = port;
  state = handshake;
  udp_socket = none;
  is_initiator = false;
  last_activity = now;
  addr = (ip, port);
}

-- A handshake from an address that no peer has, with the mutex held: the bar behind the id is
-- overwritten by a NUL in the buffer that is processed.
unfoldable pub meet_peer : Host → Bytes → ℤ → Bytes → Bytes → ℕ → Manager → Run Manager
unfolding split_bar process_message
meet_peer h ip port buffer payload n m = split_bar payload >>= λ found. elim found [
  | none ↦ done m
  | some (id, behind) ↦ add_peer h.now id m >>= λ (entry, m1). elim entry [
    | none ↦ done m1
    | some i ↦
        let m2 = put_peer m1 i (met_peer h.now ip port (peer_at m1 i)) in
        (process_message h i (take header_len buffer ++ (id ++ (0 ∷ behind))) n m2 >>= λ (code, m3).
        done m3)
  ]
]

-- What `listener_thread` does with a datagram of `n` bytes from an address: `buffer` is the array
-- that it was received into.
unfoldable pub receive : Host → Bytes → ℤ → Bytes → ℕ → Manager → Run Manager
receive h ip port buffer n m = if ltb n header_len then done m else elim (read_message buffer) [
  | none ↦ overrun
  | some (msg, payload) ↦ if not (msg.magic == p2p_magic) then done m else (do
    m1 ← lock m
    m2 ← elim (find_index (has_address ip port) m1.peer_count m1.peers) [
      | some i ↦ process_message h i buffer n m1 >>= λ r. done r.1
      | none ↦ if msg.type == 1 then meet_peer h ip port buffer payload n m1 else done m1
    ]
    done (unlock m2))
]

abbrev pub is_older : ℕ → ℤ → P2pPeer → Bool
is_older age now p = is_positive (sub_nat (elapsed now p.last_activity) age)

-- The two tests in the round of `keepalive_thread`.
unfoldable pub probe : Host → ℕ → Manager → Manager
unfolding send_message
probe h i m =
    if is_older 60 h.now (peer_at m i) then (send_message h i type_keepalive (0 ∷ []) m).1 else m

unfoldable pub time_out : Host → ℕ → Manager → Manager
time_out h i m =
    if is_older 150 h.now (peer_at m i)
    then act h.now
        (set_online (peer_at m i).id false
          ∷ push_event (event_create peer_offline (peer_at m i).id h.now)
          ∷ [])
        (put_peer m i (record (peer_at m i) { state = disconnected; is_secure = false }))
    else m

-- One peer in that round: what the second test sees is what the first has left.
unfoldable pub keep_peer : Host → ℕ → Manager → Manager
unfolding probe time_out
keep_peer h i m = if is_established (peer_at m i).state then time_out h i (probe h i m) else m

unfoldable pub keep_peers : Host → ℕ → ℕ → Manager → Manager
unfolding keep_peer
keep_peers h zero i m = m
keep_peers h (suc n) i m = keep_peers h n (suc i) (keep_peer h i m)

-- A round of `keepalive_thread`.
unfoldable pub keepalive : Host → Manager → Run Manager
unfolding lock keep_peers
keepalive h m = do m1 ← lock m; done (unlock (keep_peers h m1.peer_count 0 m1))
