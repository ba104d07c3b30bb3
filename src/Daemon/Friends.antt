-- ===== src/Daemon/Friends.antt =====
-- daemon.c: the commands on the identity, the network and the peers.
use orcashi.Prelude.{
  ℕ, pos, Bool, true, false, not, ◌&&◌, Option, none, some, List, [], ◌∷◌, ◌++◌, if◌then◌else◌,
  Code, ok, err, is_positive, length, ltb,
}
use orcashi.CString.Text.{Bytes, codes, fit, is_empty}
use orcashi.CString.Number.{show_int, show_nat}
use orcashi.CString.Memory.{Run, done, overrun, ◌>>=◌}
use orcashi.State.Types.{
  Peer, PeerState, request_sent, request_received, friend, is_friend_state, state_to_string,
}
use orcashi.State.Peers.{peer_at, state_get_peer}
use orcashi.State.Ghosts.{state_deliver_ghost_messages}
use orcashi.State.Queries.{state_get_peers, state_get_count}
use orcashi.Events.World.{
  add_peer, remove_peer, update_peer, set_online, set_ip, set_port, deliver_ghost_messages,
}
use orcashi.MixedId.Codec.{mixed_id_encode}
use orcashi.P2p.Types.{Manager}
use orcashi.P2p.Table.{act}
use orcashi.P2p.Connect.{p2p_init, p2p_connect, p2p_accept}
use orcashi.P2p.Listener.{elapsed}
use orcashi.Daemon.Types.{Daemon, Setting, Reply, say, fail}

abbrev pub with_manager : Daemon → Manager → Daemon
with_manager d m = record d { manager = m }

-- `mixed_id` keeps what stood in it where the text does not fit it.
abbrev pub mixed_id_text : Bytes → Bytes → Bytes
mixed_id_text unset id = elim (mixed_id_encode id (codes "0.0.0.0") (pos 9000) 64) [
  | none ↦ unset
  | some t ↦ t
]

unfoldable pub daemon_cmd_identity : Setting → Bytes → Daemon → Reply × Daemon
daemon_cmd_identity s unset d = elim s.host.identity [
  | none ↦ (fail (codes "ERROR: No identity found\n"), d)
  | some identity ↦ (
    say (pos 0) (
        codes "ID        : "
        ++ (identity.id
            ++ (codes "\nName      : "
                ++ (identity.name
                    ++ (codes "\nMode      : "
                        ++ ((if s.is_secure_mode then codes "SECURE" else codes "NORMAL")
                            ++ (codes "\nCreated   : "
                                ++ (s.created
                                    ++ (codes "Mixed ID  : "
                                        ++ (mixed_id_text unset identity.id ++ codes "\n")))))))))),
    d,
  )
]

-- The DHT is told of the identity; `p2p_init` is called whatever it returns.
unfoldable pub daemon_cmd_listen : Setting → Daemon → Reply × Daemon
daemon_cmd_listen s d =
    if d.dht_open
    then (say (pos 0) (codes "DHT already announced\n"), d)
    else elim s.host.identity [
      | none ↦ (fail (codes "ERROR: No identity found. Register first.\n"), d)
      | some identity ↦
          if not s.dht_made
          then (fail (codes "ERROR: Failed to create DHT node\n"), d)
          else if not s.dht_started
          then (fail (codes "ERROR: Failed to start DHT node\n"), d)
          else (
            say (pos 0) (
                codes "DHT announced ID "
                ++ (identity.id
                    ++ codes " on port 9000\nP2P listening on UDP port 9000\nDaemon is ready\n")),
            record d {
              dht_open = true;
              dht_connected = true;
              p2p_ready = true;
              manager = (p2p_init s.host d.manager).1;
            },
          )
    ]

unfoldable pub daemon_cmd_search : Setting → Option Bytes → Daemon → Reply × Daemon
daemon_cmd_search s none d = (fail (codes "ERROR: Usage: search <id>\n"), d)
daemon_cmd_search s (some args) d =
    if not d.dht_open
    then (fail (codes "ERROR: Daemon not listening. Use 'listen' first.\n"), d)
    else let peer_id = fit 64 args in
      elim (s.host.dht_lookup peer_id) [
        | some (ip, port) ↦ (
          say (pos 0) (
              codes "Found peer "
              ++ (peer_id
                  ++ (codes "\n  IP  : "
                      ++ (ip
                          ++ (codes "\n  Port: "
                              ++ (show_int port ++ codes "\n  Status: ONLINE\n")))))),
          with_manager d (
              act s.host.now
                (set_ip peer_id ip ∷ set_port peer_id port ∷ set_online peer_id true ∷ [])
                d.manager),
        )
        | none ↦ (
          say (pos 1) (codes "Peer " ++ (peer_id ++ codes " not found\n  Status: OFFLINE\n")),
          with_manager d (act s.host.now (set_online peer_id false ∷ []) d.manager),
        )
      ]

-- `strlen(peer->ip) > 0 && peer->port > 0`
abbrev pub has_address : Peer → Bool
has_address p = not (is_empty p.ip) && is_positive p.port

abbrev pub store_peer : Manager → ℕ → Peer
store_peer m i = peer_at m.world.store i

abbrev pub waiting : Bytes → Manager → Reply × Manager
waiting peer_id m = (
  say (pos 0)
      (codes "Request sent to " ++ (peer_id ++ codes "\nWaiting for peer to come online\n")),
  m,
)

-- The part of `daemon_cmd_add` behind `state_update_peer`.
unfoldable pub reach_out : Setting → Bytes → ℕ → Manager → Run (Reply × Manager)
reach_out s peer_id i m =
    if has_address (store_peer m i)
    then (p2p_connect s.host peer_id m >>= λ (code, m1). done (elim code [
      | ok ↦ (
        say (pos 0) (codes "Request sent to " ++ (peer_id ++ codes "\nConnection established\n")),
        m1,
      )
      | err ↦ waiting peer_id m1
    ]))
    else done (waiting peer_id m)

abbrev pub ensure_peer : Setting → Bytes → Manager → Manager
ensure_peer s peer_id m = elim (state_get_peer m.world.store peer_id) [
  | none ↦ act s.host.now (add_peer peer_id ∷ []) m
  | some i ↦ m
]

unfoldable pub add_known : Setting → Bytes → Manager → Run (Reply × Manager)
unfolding reach_out
add_known s peer_id m = elim (state_get_peer m.world.store peer_id) [
  | none ↦ done (fail (codes "ERROR: Failed to add peer\n"), m)
  | some i ↦
      if is_friend_state (store_peer m i).state
      then done (say (pos 0) (codes "Already friends with " ++ (peer_id ++ codes "\n")), m)
      else reach_out s peer_id i (act s.host.now (update_peer peer_id request_sent ∷ []) m)
]

unfoldable pub daemon_cmd_add : Setting → Option Bytes → Daemon → Run (Reply × Daemon)
unfolding add_known
daemon_cmd_add s none d = done (fail (codes "ERROR: Usage: add <id>\n"), d)
daemon_cmd_add s (some args) d =
    add_known s (fit 64 args) (ensure_peer s (fit 64 args) d.manager) >>= λ (r, m).
    done (r, with_manager d m)

abbrev pub is_request : PeerState → Bool
is_request request_received = true
is_request _ = false

-- The commands `accept` and `reject` up to their test of the peer's state.
unfoldable pub on_request : Bytes → (ℕ → Run (Reply × Manager)) → Manager → Run (Reply × Manager)
on_request peer_id f m = elim (state_get_peer m.world.store peer_id) [
  | none ↦ done (fail (codes "ERROR: Peer " ++ (peer_id ++ codes " not found\n")), m)
  | some i ↦
      if not (is_request (store_peer m i).state)
      then done (fail (codes "ERROR: No pending request from " ++ (peer_id ++ codes "\n")), m)
      else f i
]

-- The ghost messages are delivered, however the P2P manager's part ended.
unfoldable pub deliver_to : Setting → Bytes → Code × Manager → Reply × Manager
deliver_to s peer_id (code, m) =
    let count = (state_deliver_ghost_messages peer_id s.host.now m.world.store m.world.queue).0 in
    (
      say (pos 0) (
          codes "Accepted request from "
          ++ (peer_id
              ++ (elim code [
                | ok ↦ codes "\n"
                | err ↦ codes "\nPeer is offline, will connect when online\n"
              ]
                  ++ (codes "Delivered " ++ (show_nat count ++ codes " ghost messages\n"))))),
      act s.host.now (deliver_ghost_messages peer_id ∷ []) m,
    )

unfoldable pub accept_request : Setting → Bytes → Manager → ℕ → Run (Reply × Manager)
unfolding deliver_to
accept_request s peer_id m i =
    let m1 = act s.host.now (update_peer peer_id friend ∷ []) m in
    if has_address (store_peer m1 i)
    then (p2p_accept s.host peer_id m1 >>= λ r. done (deliver_to s peer_id r))
    else done (deliver_to s peer_id (ok, m1))

unfoldable pub daemon_cmd_accept : Setting → Option Bytes → Daemon → Run (Reply × Daemon)
unfolding on_request accept_request
daemon_cmd_accept s none d = done (fail (codes "ERROR: Usage: accept <id>\n"), d)
daemon_cmd_accept s (some args) d =
    on_request (fit 64 args) (accept_request s (fit 64 args) d.manager) d.manager >>= λ (r, m).
    done (r, with_manager d m)

unfoldable pub daemon_cmd_reject : Setting → Option Bytes → Daemon → Run (Reply × Daemon)
unfolding on_request
daemon_cmd_reject s none d = done (fail (codes "ERROR: Usage: reject <id>\n"), d)
daemon_cmd_reject s (some args) d =
    let peer_id = fit 64 args in
    on_request peer_id
      (λ i. done (
        say (pos 0) (codes "Rejected request from " ++ (peer_id ++ codes "\n")),
        act s.host.now (remove_peer peer_id ∷ []) d.manager,
      ))
      d.manager
    >>= λ (r, m). done (r, with_manager d m)

abbrev pub peer_line : Peer → Bytes
peer_line p =
    codes "  "
    ++ (p.id
        ++ (codes " | "
            ++ (state_to_string p.state
                ++ (codes " | " ++ (p.ip ++ (codes ":" ++ (show_int p.port ++ codes "\n")))))))

-- The loop over the peers: `t` is what the calls of snprintf have printed, of which `buffer` holds what fits its 4096 bytes. Behind its
-- end the size that is passed on wraps round, and the code writes outside of the buffer.
unfoldable pub peer_lines : List Peer → Bytes → Run Bytes
peer_lines [] t = done t
peer_lines (p ∷ ps) t = if ltb 4096 (length t) then overrun else peer_lines ps (t ++ peer_line p)

abbrev pub print_peers : Daemon → List Peer → Run (Reply × Daemon)
print_peers d [] = done (say (pos 0) (codes "No peers\n"), d)
print_peers d (p ∷ ps) =
    peer_lines (p ∷ ps) (codes "PEERS (" ++ (show_nat (length (p ∷ ps)) ++ codes "):\n")) >>= λ t.
    done (say (pos 0) (fit 4096 t), d)

unfoldable pub daemon_cmd_peers : Daemon → Run (Reply × Daemon)
unfolding peer_lines
daemon_cmd_peers d = print_peers d (state_get_peers d.manager.world.store 128)

unfoldable pub daemon_cmd_status : Setting → Daemon → Reply × Daemon
daemon_cmd_status s d = (
  say (pos 0) (
      codes "Daemon running (PID: "
      ++ (show_nat s.pid
          ++ (codes ")\nUptime: "
              ++ (show_int (elapsed s.host.now d.start_time)
                  ++ (codes " seconds\nDHT: "
                      ++ ((if d.dht_connected then codes "Connected" else codes "Disconnected")
                          ++ (codes "\nP2P: "
                              ++ ((if d.p2p_ready then codes "Ready" else codes "Not ready")
                                  ++ (codes "\nPeers: "
                                      ++ (show_nat (state_get_count d.manager.world.store)
                                          ++ codes "\n")))))))))),
  d,
)

unfoldable pub daemon_cmd_stop : Daemon → Reply × Daemon
daemon_cmd_stop d = (say (pos 0) (codes "Shutting down...\n"), record d { running = false })
