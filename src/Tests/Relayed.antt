-- ===== src/Tests/Relayed.antt =====
-- Connections through a relay at concrete inputs.
use orcashi.Prelude.{
  ◌≡◌, refl, pos, set, true, false, none, some, [], ◌∷◌, ◌++◌, replicate, arith, ok, length, ltb,
}
use orcashi.CString.Text.{codes, str_eq}
use orcashi.CString.Memory.{done, overrun, Returns, strcpy}
use orcashi.Relay.Types.{RelayManager, Net}
use orcashi.Relay.Table.{
  relay_manager_init, begun, relay_is_connected, find_session, find_or_add, relay_find_session,
  relay_add_session, fresh_session,
}
use orcashi.Relay.Calls.{
  relay_accept, relay_send, relay_recv, bytes, handshake_text, taking, copy_name,
  relay_generate_session_keys,
}
use orcashi.Relay.Listener.{relay_listen}
use orcashi.Relay.Keeps.{IsRelay}
use orcashi.Relay.Histories.{Reach, start, next, accepts, Reach-IsRelay}
use orcashi.Relay.Lost.{send_lost, Within, recv-Within}
use orcashi.Relay.Joining.{Heard, handshake-Joins}

abbrev net : Net
net = record {
  now = pos 1000;
  new_id = 5;
  random = replicate 32 9;
  identity = some (codes "1111");
  new_socket = some 4;
  memory = true;
  sends = true;
  padding = (0, 0);
  tail = (0, 0);
  nonce = replicate 12 7;
  encrypt = λ text key nonce. some (replicate 16 8, text);
}

abbrev nothing : RelayManager
nothing = begun net [] (pos 0) (record {
  sessions = [];
  count = 0;
  initialized = false;
  is_relay_node = false;
  my_id = [];
  relay_port = pos 0;
  relay_socket = none;
  sent = [];
})

abbrev empty_table : RelayManager
empty_table = begun net (codes "1111") (pos 9000) nothing

begun-Reach : Reach empty_table
unfolding relay_manager_init strcpy
begun-Reach = start net (codes "1111") (pos 9000) nothing ok refl

-- The peer 2222 is accepted.
abbrev one_session : RelayManager
one_session = record empty_table {
  sessions = set empty_table.sessions 0 (taking net [] (fresh_session net (codes "2222")));
  count = 1;
}

accepted-Reach : Reach one_session
unfolding relay_accept find_or_add relay_find_session find_session relay_add_session copy_name
    relay_generate_session_keys strcpy
accepted-Reach = next begun-Reach (accepts net (codes "2222") none ok refl)

Reach-IsRelay_example : IsRelay one_session
Reach-IsRelay_example = Reach-IsRelay accepted-Reach

connected : relay_is_connected one_session (codes "2222") ≡ true
unfolding relay_is_connected relay_find_session find_session relay_generate_session_keys str_eq
connected = refl

send_lost_example : relay_send net (codes "2222") (codes "Hi") one_session ≡ overrun
send_lost_example =
    send_lost net (codes "2222") (codes "Hi") accepted-Reach connected refl refl λ key e. cc

recv-Within_example :
    Returns
      (Within 100)
      (relay_recv net (codes "2222") 100 (bytes 30 (replicate 4096 0)) one_session)
recv-Within_example =
    recv-Within net 100 30 (replicate 4096 0) (ground arith) (ground arith) (codes "2222")
      one_session

-- Behind the text stands a byte from an earlier datagram.
handshake-Joins_example :
    (m' : RelayManager) × (relay_listen net
        (codes "10.0.0.2")
        (pos 9000)
        (length (handshake_text (codes "2222") 77 (codes "1111")))
        (handshake_text (codes "2222") 77 (codes "1111") ++ (codes "9" ++ (0 ∷ [])))
        empty_table
      ≡ done m')
    × Heard
        (ltb (length (handshake_text (codes "2222") 77 (codes "1111"))) 24)
        net
        (codes "10.0.0.2")
        (pos 9000)
        (codes "2222")
        77
        empty_table
        m'
handshake-Joins_example =
    handshake-Joins net (codes "10.0.0.2") (pos 9000) 77 (codes "2222") (codes "1111") (codes "9")
      [] empty_table (ground arith) (ground arith) (ground arith) refl refl (ground arith)
      (ground arith) (ground arith) (omega arith) (Reach-IsRelay begun-Reach) (omega arith)
