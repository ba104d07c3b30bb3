-- ===== src/Tests/Peers.antt =====
-- The P2P manager at concrete inputs.
use mathlib.Core.Option
use orcashi.Prelude.{
  take, if◌then◌else◌, ℕ, zero, suc, ◌≡◌, refl, pos, true, false, none, some, [], ◌∷◌, ◌++◌, ok,
  replicate, length, ◌<◌, arith,
}
use orcashi.CString.Text.{Bytes, codes}
use orcashi.CString.Memory.{done, blocked, overrun, ◌>>=◌, AtEnd, Returns}
use orcashi.Events.World.{add_peer}
use orcashi.Events.Keeps.{init_world, init_world-IsSound, run_calls, run_calls-init}
use orcashi.P2p.Types.{
  P2pPeer, Manager, Host, Identity, zero_peer, established, is_established, u32,
}
use orcashi.P2p.Message.{build_message, built_header, read_message}
use orcashi.P2p.Table.{find_index, peer_at}
use orcashi.P2p.Channel.{sent_off, type_data}
use orcashi.P2p.Handlers.{split_bar, process_message, request_event}
use orcashi.P2p.Listener.{receive, keepalive}
use orcashi.P2p.Connect.{p2p_connect, send_sealed}
use orcashi.P2p.Keeps.{IsManager}
use orcashi.P2p.Histories.{
  start_manager, perform, perform_all, perform_all-IsManager, start_manager-IsManager, starting,
  connecting_to, sending, keeping,
}
use orcashi.P2p.Endings.{IsOwn, own-IsManager, receive_new}
use orcashi.P2p.Silence.{Same, CanSend, keepalive-Same}
use orcashi.P2p.Requests.{requested, request, unchecked_length}
use orcashi.State.Ids.{is_same_id}
use orcashi.State.View.{view}
use orcashi.Events.Ring.{pending, spec_push}
use orcashi.P2p.Calling.{Meets, called}
use orcashi.P2p.Secrecy.{answered, zero_key}

abbrev pub alice : Identity
alice = record {
  id = codes "1111";
  name = codes "Alice";
  public_key = codes "A";
  private_key = codes "a";
}

-- A network on which everything succeeds.
abbrev pub host : Host
host = record {
  now = pos 1000;
  memory = true;
  sends = λ i. true;
  padding = (0, 0);
  identity = some alice;
  dht_lookup = λ id. some (codes "10.0.0.2", pos 7777);
  new_socket = some 5;
  threads_end = true;
  hole_punch = λ ip port. ok;
  sign = λ text key. some (codes "s");
  verify = λ text signature key. true;
  session_keys = λ key. none;
  random_nonce = replicate 12 7;
  encrypt = λ text key nonce. some (replicate 16 9, text);
  decrypt = λ key nonce tag text. some text;
}

abbrev begun : Manager
begun = start_manager init_world

abbrev running : Manager
running = record begun { initialized = true }

abbrev hello_text : Bytes
hello_text = build_message host 1 (codes "2222|B|s")

perform_all-IsManager_example : AtEnd (IsManager false) (
    perform_all
      ((host, starting)
        ∷ (host, connecting_to (codes "2222"))
        ∷ (host, sending (codes "2222") (codes "Hi"))
        ∷ (host, keeping)
        ∷ [])
      begun)
perform_all-IsManager_example =
    perform_all-IsManager
      ((host, starting)
        ∷ (host, connecting_to (codes "2222"))
        ∷ (host, sending (codes "2222") (codes "Hi"))
        ∷ (host, keeping)
        ∷ [])
      (start_manager-IsManager init_world init_world-IsSound)

own-IsManager_example :
    Returns (IsManager false) (perform host (sending (codes "2222") (codes "Hi")) begun)
unfolding IsOwn
own-IsManager_example =
    own-IsManager host (sending (codes "2222") (codes "Hi")) tt
      (start_manager-IsManager init_world init_world-IsSound)

receive_new_example :
    receive host (codes "10.0.0.2") (pos 7777) (hello_text ++ (0 ∷ [])) 28 running ≡ blocked
unfolding find_index read_message build_message u32 split_bar
receive_new_example =
    receive_new host (codes "10.0.0.2") (pos 7777) (hello_text ++ (0 ∷ [])) 28 running
      (built_header host 1 (codes "2222|B|s")) (codes "2222|B|s" ++ (0 ∷ [])) (codes "2222")
      (codes "B|s" ++ (0 ∷ [])) refl (omega arith) refl refl refl refl refl

-- A manager whose user knows the sender.
abbrev knowing : Manager
knowing = record running { world = run_calls ((pos 900, add_peer (codes "2222")) ∷ []) init_world }

request_example :
    (m' : Manager) × (process_message host 0
        (build_message host 6 (codes "2222") ++ (0 ∷ []))
        24
        knowing
      ≡ done (ok, m'))
    × ((other : Bytes)
        → view m'.world.store other ≡ (
            if is_same_id (codes "2222") other
            then Option.map
                (requested (pos 1000) zero_peer)
                (view knowing.world.store (codes "2222"))
            else view knowing.world.store other))
    × (pending m'.world.queue
        ≡ (spec_push
            (request_event (pos 1000) (codes "2222") zero_peer)
            (pending knowing.world.queue)).1)
request_example =
    request host host 0 24 knowing (codes "2222") [] 0
      (omega arith, (omega arith, (omega arith, (omega arith, tt)))) (omega arith) (omega arith)
      (run_calls-init ((pos 900, add_peer (codes "2222")) ∷ [])) (omega arith)

-- A request of four bytes that names five.
abbrev short_buffer : Bytes
short_buffer = take 24 (build_message host 6 (codes "22222"))

unchecked_length_example : process_message host 0 short_buffer 24 running ≡ overrun
unfolding read_message build_message u32
unchecked_length_example =
    unchecked_length host 0 24 short_buffer (codes "2222") (built_header host 6 (codes "22222"))
      running (omega arith) refl refl (omega arith) (omega arith) (omega arith)

-- A peer that was last heard of long ago.
abbrev quiet : P2pPeer
quiet = record zero_peer {
  id = codes "2222";
  state = established;
  udp_socket = some 5;
  last_activity = pos 0;
}

abbrev one_peer : Manager
one_peer = record running { peers = quiet ∷ []; peer_count = 1 }

one_peer-CanSend : CanSend host one_peer
one_peer-CanSend = record { memory = refl; sends = λ i. refl; opened = sockets }
  where
    sockets :
        (i : ℕ)
        → is_established (peer_at one_peer i).state ≡ true
        → (fd : ℕ) × ((peer_at one_peer i).udp_socket ≡ some fd)
    sockets zero e = (5, refl)
    sockets (suc i) e = cc

keepalive-Same_example : (m' : Manager) × ((keepalive host one_peer ≡ done m') × Same one_peer m')
keepalive-Same_example = keepalive-Same host one_peer refl one_peer-CanSend

running_meets : Meets host (codes "2222") (codes "10.0.0.2") (pos 7777) 5 alice (codes "s") 0
running_meets = record {
  found = refl;
  short = omega arith;
  socket = refl;
  punched = refl;
  own = refl;
  signed = refl;
  fits = omega arith;
  memory = refl;
  sends = refl;
}

in_table : 0 < length running.peers
in_table = omega arith

zero_key_example :
    (p2p_connect host (codes "2222") running >>= λ (code, m1).
    process_message host 0 (build_message host 2 (1 ∷ []) ++ (0 ∷ [])) 21 m1 >>= λ (code, m2).
    done (send_sealed host 0 (codes "Hi") m2))
    ≡ done (
      ok,
      sent_off host 0 type_data (replicate 12 7 ++ (replicate 16 9 ++ codes "Hi")) (
          answered (pos 1000) 0 (
            called host
              (codes "2222")
              (codes "10.0.0.2")
              (pos 7777)
              5
              alice
              (codes "s")
              running
              running_meets
              in_table)),
    )
unfolding find_index
zero_key_example =
    zero_key host host host host (codes "2222") (codes "10.0.0.2") (pos 7777) 5 alice (codes "s")
      running running_meets in_table 21 (1 ∷ []) (0 ∷ []) (codes "Hi") (replicate 16 9) (codes "Hi")
      refl refl (omega arith) refl (omega arith) (omega arith) refl refl refl
