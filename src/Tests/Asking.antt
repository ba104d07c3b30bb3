-- ===== src/Tests/Asking.antt =====
-- The daemon's commands at concrete inputs.
use orcashi.Prelude.{
  ◌-◌, ◌≡◌, refl, pos, true, some, [], ◌∷◌, replicate, length, take, arith, if◌then◌else◌, ltb,
}
use orcashi.CString.Text.{codes, fit}
use orcashi.CString.Memory.{done, overrun, Returns}
use orcashi.State.Types.{request_received}
use orcashi.State.Ids.{normalize_id, is_same_id}
use orcashi.State.Peers.{peer_at, find_peer, state_add_peer, state_update_peer}
use orcashi.State.Ghosts.{state_add_ghost_message}
use orcashi.State.Queries.{state_get_peers}
use orcashi.Events.Keeps.{init_world, init_world-IsSound}
use orcashi.Events.Handlers.{calls}
use orcashi.Events.World.{call, add_peer, update_peer, add_ghost_message}
use orcashi.P2p.Types.{Manager}
use orcashi.P2p.Table.{act}
use orcashi.P2p.Keeps.{act-IsManager}
use orcashi.P2p.Histories.{start_manager, start_manager-IsManager}
use orcashi.Tests.Peers.{host}
use orcashi.Daemon.Types.{Daemon, Setting, say}
use orcashi.Daemon.Friends.{daemon_cmd_reject, daemon_cmd_peers}
use orcashi.Daemon.Talk.{send_words}
use orcashi.Daemon.Dispatch.{daemon_ipc_handle, answer_of}
use orcashi.Daemon.Client.{chat_command, ghost_command}
use orcashi.Daemon.Keeps.{IsDaemon}
use orcashi.Daemon.Asked.{chat_text, long_id}
use orcashi.Daemon.Answers.{Rejects, reject-Rejects}
use orcashi.Daemon.Listing.{printed, heading, peers_fit}

abbrev setting : Setting
setting = record {
  host = host;
  rand = 7;
  pid = 42;
  dht_made = true;
  dht_started = true;
  is_secure_mode = true;
  created = codes "now\n";
}

abbrev daemon_with : Manager → Daemon
daemon_with m = record {
  dht_open = true;
  running = true;
  dht_connected = true;
  p2p_ready = true;
  start_time = pos 900;
  manager = m;
}

-- The peer 2222 asks to be a friend, and a message waits for it.
abbrev asked : Daemon
asked = daemon_with (
    act (pos 1000)
      (add_peer (codes "2222")
        ∷ update_peer (codes "2222") request_received
        ∷ add_ghost_message (codes "2222") (codes "Hi") 7
        ∷ [])
      (start_manager init_world))

asked-IsDaemon : IsDaemon asked
asked-IsDaemon = act-IsManager (pos 1000) _ (start_manager-IsManager init_world init_world-IsSound)

chat_text_example :
    daemon_ipc_handle setting [] (chat_command (codes "2222") (codes "Hi you")) asked
    ≡ answer_of (send_words setting (codes "2222") (take (500 - 4) (codes "Hi you")) asked)
chat_text_example =
    chat_text setting [] (codes "2222") (codes "Hi you") asked (ground arith) (ground arith)
      (ground arith)

long_id_example :
    (daemon_ipc_handle setting [] (chat_command (replicate 64 65) (codes "Hi")) asked ≡ overrun)
    × (daemon_ipc_handle setting [] (ghost_command (replicate 64 65) (codes "Hi")) asked ≡ overrun)
long_id_example =
    long_id setting [] (replicate 64 65) (codes "Hi") asked (ground arith) (ground arith)
      (ground arith) (ground arith)

reject-Rejects_example :
    Returns
      (Rejects (codes "2222") (codes "3333") asked)
      (daemon_cmd_reject setting (some (codes "2222")) asked)
reject-Rejects_example = reject-Rejects setting (codes "2222") (codes "3333") asked asked-IsDaemon

listed : state_get_peers asked.manager.world.store 128 ≡ peer_at asked.manager.world.store 0 ∷ []
unfolding state_get_peers calls call state_add_peer state_update_peer state_add_ghost_message
    normalize_id find_peer is_same_id
listed = refl

peers_fit_example : daemon_cmd_peers asked ≡ (
    if ltb 4096 (length (printed [] (heading 1)))
    then overrun
    else done (
      say (pos 0) (fit 4096 (printed (peer_at asked.manager.world.store 0 ∷ []) (heading 1))),
      asked,
    ))
peers_fit_example = peers_fit asked [] (peer_at asked.manager.world.store 0) listed
