-- ===== src/P2p/Types.antt =====
-- p2p_manager.h and p2p_manager.c: the data.
use orcashi.Prelude.{
  ℕ, ℤ, pos, negsuc, ◌%◌, ◌^◌, ◌-◌, Bool, true, false, Option, some, List, [], replicate, Code,
}
use orcashi.CString.Text.{Bytes}
use orcashi.Events.World.{World}

pub data P2pState : Type 0 where
  disconnected connecting handshake secure established : P2pState

unfoldable pub state_rank : P2pState → ℕ
state_rank disconnected = 0
state_rank connecting = 1
state_rank handshake = 2
state_rank secure = 3
state_rank established = 4

abbrev pub is_established : P2pState → Bool
is_established established = true
is_established _ = false

abbrev pub is_handshake : P2pState → Bool
is_handshake handshake = true
is_handshake _ = false

-- `udp_socket` is `none` for -1; `addr` is the address and port that the `sockaddr_in` was made
-- of. The nonces, the retries, and what is known of the peer's network are left out: nothing in
-- p2p_manager.c reads them.
pub record P2pPeer : Type 0 where
  pub id : Bytes
  pub ip : Bytes
  pub port : ℤ
  pub state : P2pState
  pub udp_socket : Option ℕ
  pub addr : Bytes × ℤ
  pub shared_secret : Bytes
  pub aes_key : Bytes
  pub last_activity : ℤ
  pub created_at : ℤ
  pub is_secure : Bool
  pub is_initiator : Bool
  pub public_key : Bytes

abbrev pub p2p_max_peers : ℕ
p2p_max_peers = 256

abbrev pub zero_peer : P2pPeer
zero_peer = record {
  id = [];
  ip = [];
  port = pos 0;
  state = disconnected;
  udp_socket = some 0;
  addr = ([], pos 0);
  shared_secret = replicate 32 0;
  aes_key = replicate 32 0;
  last_activity = pos 0;
  created_at = pos 0;
  is_secure = false;
  is_initiator = false;
  public_key = [];
}

-- The data of p2p_manager.c, with what the state manager and the event queue hold, and the messages
-- that were handed to the network, each with its address.
pub record Manager : Type 0 where
  pub peers : List P2pPeer
  pub peer_count : ℕ
  pub mutex_held : Bool
  pub initialized : Bool
  pub world : World
  pub sent : List ((Bytes × ℤ) × Bytes)

pub record Identity : Type 0 where
  pub id : Bytes
  pub name : Bytes
  pub public_key : Bytes
  pub private_key : Bytes

-- What an operation gets from outside: the clock, the memory, the network and the file of the
-- identity, and the functions that call OpenSSL. `sends` says by the peer's index whether `sendto`
-- succeeds; `padding` is what the two bytes behind `type` happen to hold.
pub record Host : Type 0 where
  pub now : ℤ
  pub memory : Bool
  pub sends : ℕ → Bool
  pub padding : ℕ × ℕ
  pub identity : Option Identity
  pub dht_lookup : Bytes → Option (Bytes × ℤ)
  pub new_socket : Option ℕ
  pub threads_end : Bool
  pub hole_punch : Bytes → ℤ → Code
  pub sign : Bytes → Bytes → Option Bytes
  pub verify : Bytes → Bytes → Bytes → Bool
  pub session_keys : Bytes → Option (Bytes × Bytes)
  pub random_nonce : Bytes
  pub encrypt : Bytes → Bytes → Bytes → Option (Bytes × Bytes)
  pub decrypt : Bytes → Bytes → Bytes → Bytes → Option Bytes

-- `(uint32_t)` of a signed number.
unfoldable pub u32 : ℤ → ℕ
u32 (pos n) = n % 2 ^ 32
u32 (negsuc n) = 2 ^ 32 - 1 - n % 2 ^ 32
