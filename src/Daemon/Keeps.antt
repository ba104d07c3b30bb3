-- ===== src/Daemon/Keeps.antt =====
-- The daemon's commands, and what they leave of the P2P manager and of what it stands on.
use orcashi.Prelude.{
  ℕ, Bool, true, false, not, Option, none, some, List, [], ◌∷◌, ◌++◌, if◌then◌else◌, Code, ok, err,
  length,
}
use orcashi.CString.Text.{Bytes, codes, fit, is_empty, str_eq}
use orcashi.CString.Memory.{
  Run, done, strcpy, AtEnd, AtEnd-done, AtEnd-option, AtEnd-if, AtEnd-bind, AtEnd-then, ◌>>=◌,
}
use orcashi.State.Types.{Peer, request_sent, friend, is_friend_state}
use orcashi.State.Peers.{state_get_peer}
use orcashi.State.Queries.{state_get_peers}
use orcashi.Events.World.{add_peer, update_peer}
use orcashi.P2p.Types.{Manager, P2pPeer, is_established}
use orcashi.P2p.Table.{act, query, find_peer, p2p_is_connected}
use orcashi.P2p.Connect.{p2p_connect, p2p_accept, p2p_send}
use orcashi.P2p.Keeps.{IsManager, act-IsManager}
use orcashi.P2p.Steps.{After, find_peer-After}
use orcashi.P2p.Calls.{p2p_connect-Ends, p2p_accept-Ends, p2p_send-Ends, p2p_init-IsManager}
use orcashi.Daemon.Types.{Daemon, Setting, Reply, split_space}
use orcashi.Daemon.Friends.{
  daemon_cmd_identity, daemon_cmd_listen, daemon_cmd_search, daemon_cmd_add, daemon_cmd_accept,
  daemon_cmd_reject, daemon_cmd_peers, daemon_cmd_status, daemon_cmd_stop, with_manager,
  has_address, store_peer, reach_out, ensure_peer, add_known, is_request, on_request, deliver_to,
  accept_request, peer_lines, print_peers,
}
use orcashi.Daemon.Talk.{
  copy_id, on_words, send_text, keep_text, daemon_cmd_chat_send, daemon_cmd_ghost,
}
use orcashi.CString.Number.{show_nat}
use orcashi.Daemon.Dispatch.{unknown_command, run_command, daemon_handle_command, daemon_ipc_handle}

-- The daemon's P2P manager is as it should be, and its mutex is free.
abbrev pub IsDaemon : Daemon → Type 0
IsDaemon d = IsManager false d.manager

-- The same of what a command leaves.
abbrev pub Good : {A : Type 0} → A × Daemon → Type 0
Good r = IsDaemon r.1

-- What holds on both branches holds of the choice.
module _ {A : Type 0} (P : A → Type 0) where
  of-if : (b : Bool) (x y : A) → P x → P y → P (if b then x else y)
  of-if true x y h k = h
  of-if false x y h k = k

  of-option :
      {B : Type 0} (o : Option B) (x : A) (f : B → A)
      → P x
      → ((b : B) → P (f b))
      → P (elim o [ none ↦ x | some b ↦ f b ])
  of-option none x f h k = h
  of-option (some b) x f h k = k b

  of-code : (c : Code) (x y : A) → P x → P y → P (elim c [ ok ↦ x | err ↦ y ])
  of-code ok x y h k = h
  of-code err x y h k = k

query-After :
    {A : Type 0} (id : Bytes) (otherwise : A) (f : P2pPeer → A) {m : Manager}
    → IsManager false m
    → AtEnd After (query id otherwise f m)
unfolding query
query-After id otherwise f {m} v =
    AtEnd-then _ (find_peer id m) _ (find_peer-After id v) λ (i, m1) v1. AtEnd-done _ v1

-- A part of a command that works on the P2P manager, and what is left of the daemon by it.
back-Good :
    {A : Type 0} (r : Run (A × Manager)) (d : Daemon)
    → AtEnd After r
    → AtEnd Good (r >>= λ (a, m). done (a, with_manager d m))
back-Good r d v = AtEnd-then _ r _ v λ (a, m) v1. AtEnd-done _ v1

module _ (s : Setting) where
  identity-Good : (unset : Bytes) (d : Daemon) → IsDaemon d → Good (daemon_cmd_identity s unset d)
  unfolding daemon_cmd_identity
  identity-Good unset d v = of-option Good s.host.identity _ _ v λ identity. v

  listen-Good : (d : Daemon) → IsDaemon d → Good (daemon_cmd_listen s d)
  unfolding daemon_cmd_listen
  listen-Good d v = of-if Good d.dht_open _ _ v (
      of-option Good s.host.identity _ _ v λ identity.
        of-if Good (not s.dht_made) _ _ v
          (of-if Good (not s.dht_started) _ _ v (p2p_init-IsManager s.host v)))

  search-Good : (args : Option Bytes) (d : Daemon) → IsDaemon d → Good (daemon_cmd_search s args d)
  unfolding daemon_cmd_search
  search-Good none d v = v
  search-Good (some args) d v = of-if Good (not d.dht_open) _ _ v (
      of-option Good (s.host.dht_lookup (fit 64 args)) _ _ (act-IsManager s.host.now _ v)
        λ (ip, port). act-IsManager s.host.now _ v)

  reach_out-After :
      (peer_id : Bytes) (i : ℕ) {m : Manager}
      → IsManager false m
      → AtEnd After (reach_out s peer_id i m)
  unfolding reach_out
  reach_out-After peer_id i {m} v =
      AtEnd-if _ (has_address (store_peer m i)) _ _
        (AtEnd-then _ (p2p_connect s.host peer_id m) _ (p2p_connect-Ends s.host peer_id v)
          λ (code, m1) v1. AtEnd-done _ (of-code After code _ _ v1 v1))
        (AtEnd-done _ v)

  ensure_peer-IsManager :
      (peer_id : Bytes) {m : Manager}
      → IsManager false m
      → IsManager false (ensure_peer s peer_id m)
  ensure_peer-IsManager peer_id {m} v =
      of-option (IsManager false) (state_get_peer m.world.store peer_id) _ _
        (act-IsManager s.host.now (add_peer peer_id ∷ []) v) λ i. v

  add_known-After :
      (peer_id : Bytes) {m : Manager} → IsManager false m → AtEnd After (add_known s peer_id m)
  unfolding add_known
  add_known-After peer_id {m} v =
      AtEnd-option _ (state_get_peer m.world.store peer_id) _ _ (AtEnd-done _ v) λ i.
        AtEnd-if _ (is_friend_state (store_peer m i).state) _ _ (AtEnd-done _ v) (
          reach_out-After peer_id i
            (act-IsManager s.host.now (update_peer peer_id request_sent ∷ []) v))

  add-Good : (args : Option Bytes) (d : Daemon) → IsDaemon d → AtEnd Good (daemon_cmd_add s args d)
  unfolding daemon_cmd_add
  add-Good none d v = AtEnd-done _ v
  add-Good (some args) d v =
      back-Good (add_known s (fit 64 args) _) d
        (add_known-After (fit 64 args) (ensure_peer-IsManager (fit 64 args) v))

  on_request-After :
      (peer_id : Bytes) (f : ℕ → Run (Reply × Manager)) {m : Manager}
      → IsManager false m
      → ((i : ℕ) → AtEnd After (f i))
      → AtEnd After (on_request peer_id f m)
  unfolding on_request
  on_request-After peer_id f {m} v k =
      AtEnd-option _ (state_get_peer m.world.store peer_id) _ _ (AtEnd-done _ v)
        λ i. AtEnd-if _ (not (is_request (store_peer m i).state)) _ _ (AtEnd-done _ v) (k i)

  accept_request-After :
      (peer_id : Bytes) (i : ℕ) {m : Manager}
      → IsManager false m
      → AtEnd After (accept_request s peer_id m i)
  unfolding accept_request deliver_to
  accept_request-After peer_id i {m} v =
      let v1 = act-IsManager s.host.now (update_peer peer_id friend ∷ []) v in
      AtEnd-if _ (has_address (store_peer (act s.host.now (update_peer peer_id friend ∷ []) m) i)) _
        _
        (AtEnd-then _ (p2p_accept s.host peer_id _) _ (p2p_accept-Ends s.host peer_id v1)
          λ (code, m2) v2. AtEnd-done _ (act-IsManager s.host.now _ v2))
        (AtEnd-done _ (act-IsManager s.host.now _ v1))

  accept-Good :
      (args : Option Bytes) (d : Daemon) → IsDaemon d → AtEnd Good (daemon_cmd_accept s args d)
  unfolding daemon_cmd_accept
  accept-Good none d v = AtEnd-done _ v
  accept-Good (some args) d v =
      back-Good (on_request (fit 64 args) _ d.manager) d
        (on_request-After (fit 64 args) _ v λ i. accept_request-After (fit 64 args) i v)

  reject-Good :
      (args : Option Bytes) (d : Daemon) → IsDaemon d → AtEnd Good (daemon_cmd_reject s args d)
  unfolding daemon_cmd_reject
  reject-Good none d v = AtEnd-done _ v
  reject-Good (some args) d v =
      back-Good (on_request (fit 64 args) _ d.manager) d
        (on_request-After (fit 64 args) _ v λ i. AtEnd-done _ (act-IsManager s.host.now _ v))

  peers-Good : (d : Daemon) → IsDaemon d → AtEnd Good (daemon_cmd_peers d)
  unfolding daemon_cmd_peers
  peers-Good d v = go (state_get_peers d.manager.world.store 128)
    where
      go : (ps : List Peer) → AtEnd Good (print_peers d ps)
      go [] = AtEnd-done _ v
      go (p ∷ ps) =
          AtEnd-bind _
            (peer_lines (p ∷ ps) (codes "PEERS (" ++ (show_nat (length (p ∷ ps)) ++ codes "):\n")))
            _ λ t. AtEnd-done _ v

  on_words-Good :
      (name : Bytes) (args : Option Bytes) (f : Bytes → Bytes → Daemon → Run (Reply × Daemon))
      (d : Daemon)
      → IsDaemon d
      → ((peer_id message : Bytes) → AtEnd Good (f peer_id message d))
      → AtEnd Good (on_words name args f d)
  unfolding on_words
  on_words-Good name none f d v k = AtEnd-done _ v
  on_words-Good name (some args) f d v k =
      AtEnd-option _ (split_space args) _ _ (AtEnd-done _ v) λ (id, text).
        AtEnd-bind _ (copy_id id) _
          λ peer_id. AtEnd-bind _ (strcpy 4096 text) _ λ message. k peer_id message

  send_text-After :
      (peer_id message : Bytes) {m : Manager}
      → IsManager false m
      → AtEnd After (send_text s peer_id message m)
  unfolding send_text p2p_is_connected
  send_text-After peer_id message {m} v =
      AtEnd-then _ (p2p_is_connected peer_id m) _
        (query-After peer_id false (λ p. is_established p.state) v)
        λ (connected, m1) v1. AtEnd-if _ (not connected) _ _ (AtEnd-done _ v1) (
          AtEnd-then _ (p2p_send s.host peer_id message m1) _
            (p2p_send-Ends s.host peer_id message v1)
            λ (code, m2) v2.
              AtEnd-done _ (of-code After code _ _ (act-IsManager s.host.now _ v2) v2))

  chat_send-Good :
      (args : Option Bytes) (d : Daemon) → IsDaemon d → AtEnd Good (daemon_cmd_chat_send s args d)
  unfolding daemon_cmd_chat_send
  chat_send-Good args d v = on_words-Good (codes "chat_send") args _ d v λ peer_id message.
      back-Good (send_text s peer_id message d.manager) d (send_text-After peer_id message v)

  ghost-Good :
      (args : Option Bytes) (d : Daemon) → IsDaemon d → AtEnd Good (daemon_cmd_ghost s args d)
  unfolding daemon_cmd_ghost
  ghost-Good args d v =
      on_words-Good (codes "ghost") args (keep_text s) d v
        λ peer_id message. AtEnd-done _ (act-IsManager s.host.now _ v)

  run_command-Good :
      (unset cmd_name : Bytes) (args : Option Bytes) (d : Daemon)
      → IsDaemon d
      → AtEnd Good (run_command s unset cmd_name args d)
  unfolding run_command daemon_cmd_status daemon_cmd_stop
  run_command-Good unset cmd_name args d v =
      AtEnd-if _ (str_eq cmd_name (codes "identity")) _ _
        (AtEnd-done _ {a = daemon_cmd_identity s unset d} (identity-Good unset d v))
        (AtEnd-if _ (str_eq cmd_name (codes "listen")) _ _
          (AtEnd-done _ {a = daemon_cmd_listen s d} (listen-Good d v))
          (AtEnd-if _ (str_eq cmd_name (codes "search")) _ _
            (AtEnd-done _ {a = daemon_cmd_search s args d} (search-Good args d v))
            (AtEnd-if _ (str_eq cmd_name (codes "add")) _ _ (add-Good args d v) (
              AtEnd-if _ (str_eq cmd_name (codes "accept")) _ _ (accept-Good args d v) (
                AtEnd-if _ (str_eq cmd_name (codes "reject")) _ _ (reject-Good args d v) (
                  AtEnd-if _ (str_eq cmd_name (codes "peers")) _ _ (peers-Good d v) (
                    AtEnd-if _ (str_eq cmd_name (codes "chat_send")) _ _ (chat_send-Good args d v) (
                      AtEnd-if _ (str_eq cmd_name (codes "ghost")) _ _ (ghost-Good args d v) (
                        AtEnd-if _ (str_eq cmd_name (codes "status")) _ _
                          (AtEnd-done _ {a = daemon_cmd_status s d} v)
                          (AtEnd-if _ (str_eq cmd_name (codes "stop")) _ _
                            (AtEnd-done _ {a = daemon_cmd_stop d} v)
                            (AtEnd-done _ {a = (unknown_command cmd_name, d)} v)))))))))))

  -- Whatever a client writes, the run of the daemon on it, where it comes to an end, leaves the P2P manager with its mutex free,
  -- its table of peers and what it stands on as they should be.
  daemon_ipc_handle-IsDaemon :
      (unset written : Bytes) (d : Daemon)
      → IsDaemon d
      → AtEnd Good (daemon_ipc_handle s unset written d)
  unfolding daemon_ipc_handle daemon_handle_command
  daemon_ipc_handle-IsDaemon unset written d v =
      AtEnd-if _ (is_empty written) _ _ (AtEnd-done _ v) (
        AtEnd-then _ (run_command s unset _ _ d) _ (run_command-Good unset _ _ d v)
          λ (r, d1) v1. AtEnd-done _ v1)
