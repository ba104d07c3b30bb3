-- ===== src/Turn/Types.antt =====
-- turn_client.h: the servers and the sessions.
use orcashi.Prelude.{ℕ, ℤ, pos, Bool, false, Option, some, List, []}
use orcashi.CString.Text.{Bytes}

pub data TurnState : Type 0 where
  idle connecting allocating established closed error : TurnState

abbrev pub is_established : TurnState → Bool
is_established TurnState.established = Bool.true
is_established _ = false

-- The realm and the nonce are left out: nothing reads them.
pub record TurnServerConfig : Type 0 where
  pub server_host : Bytes
  pub server_ip : Bytes
  pub port : ℤ
  pub username : Bytes
  pub password : Bytes
  pub use_auth : Bool
  pub lifetime : ℕ

abbrev pub zero_server : TurnServerConfig
zero_server = record {
  server_host = [];
  server_ip = [];
  port = pos 0;
  username = [];
  password = [];
  use_auth = false;
  lifetime = 0;
}

-- The external address, the numbers of the session, the secrets and the retries are left out: nothing reads them. `ip` and `port` are
-- read by `turn_send` and written by nothing.
pub record TurnSession : Type 0 where
  pub peer_id : Bytes
  pub relay_ip : Bytes
  pub relay_port : ℤ
  pub state : TurnState
  pub socket_fd : Option ℕ
  pub last_activity : ℤ
  pub created_at : ℤ
  pub allocation_expires : ℤ
  pub server : TurnServerConfig
  pub ip : Bytes
  pub port : ℤ

abbrev pub zero_session : TurnSession
zero_session = record {
  peer_id = [];
  relay_ip = [];
  relay_port = pos 0;
  state = idle;
  socket_fd = some 0;
  last_activity = pos 0;
  created_at = pos 0;
  allocation_expires = pos 0;
  server = zero_server;
  ip = [];
  port = pos 0;
}

abbrev pub turn_server_max : ℕ
turn_server_max = 8

abbrev pub turn_max_sessions : ℕ
turn_max_sessions = 16

abbrev pub turn_default_port : ℤ
turn_default_port = pos 3478

-- With the datagrams that were handed to the network, each with its address.
pub record TurnManager : Type 0 where
  pub sessions : List TurnSession
  pub count : ℕ
  pub initialized : Bool
  pub servers : List TurnServerConfig
  pub server_count : ℕ
  pub udp_socket : Option ℕ
  pub sent : List ((Bytes × ℤ) × Bytes)

-- The clock, 12 random bytes, whether sendto takes a datagram, what the buffer of a request holds before it is filled, and the address that a
-- name resolves to.
pub record Net : Type 0 where
  pub now : ℤ
  pub random : Bytes
  pub sends : Bool
  pub stack : Bytes
  pub resolve : Bytes → Option Bytes
