-- ===== src/Relay/Types.antt =====
-- friend_relay.h: the table of relayed connections, and what its operations get from outside.
use orcashi.Prelude.{ℕ, ℤ, pos, Bool, true, false, Option, some, List, [], replicate}
use orcashi.CString.Text.{Bytes}

pub data RelayState : Type 0 where
  idle connecting established closed : RelayState

abbrev pub is_established : RelayState → Bool
is_established established = true
is_established _ = false

-- `socket_fd` is `none` for -1. The retries are left out: nothing reads them.
pub record RelaySession : Type 0 where
  pub peer_id : Bytes
  pub relay_id : Bytes
  pub ip : Bytes
  pub port : ℤ
  pub state : RelayState
  pub socket_fd : Option ℕ
  pub session_id : ℕ
  pub last_activity : ℤ
  pub created_at : ℤ
  pub is_initiator : Bool
  pub hop_count : ℕ
  pub path : List Bytes
  pub shared_secret : Bytes
  pub is_secure : Bool

abbrev pub relay_max_peers : ℕ
relay_max_peers = 32

abbrev pub relay_max_path : ℕ
relay_max_path = 8

abbrev pub zero_session : RelaySession
zero_session = record {
  peer_id = [];
  relay_id = [];
  ip = [];
  port = pos 0;
  state = idle;
  socket_fd = some 0;
  session_id = 0;
  last_activity = pos 0;
  created_at = pos 0;
  is_initiator = false;
  hop_count = 0;
  path = replicate 8 [];
  shared_secret = replicate 32 0;
  is_secure = false;
}

-- With the datagrams that were handed to the network, each with its address.
pub record RelayManager : Type 0 where
  pub sessions : List RelaySession
  pub count : ℕ
  pub initialized : Bool
  pub is_relay_node : Bool
  pub my_id : Bytes
  pub relay_port : ℤ
  pub relay_socket : Option ℕ
  pub sent : List ((Bytes × ℤ) × Bytes)

-- The clock, the number that a new session gets from the clock, the process and rand(), 32 random bytes, the identifier in the file of the
-- identity, a socket, malloc, whether sendto takes a datagram, the two bytes behind `type` in a packet and the two behind its end, a
-- random nonce, and the functions that call OpenSSL.
pub record Net : Type 0 where
  pub now : ℤ
  pub new_id : ℕ
  pub random : Bytes
  pub identity : Option Bytes
  pub new_socket : Option ℕ
  pub memory : Bool
  pub sends : Bool
  pub padding : ℕ × ℕ
  pub tail : ℕ × ℕ
  pub nonce : Bytes
  pub encrypt : Bytes → Bytes → Bytes → Option (Bytes × Bytes)
