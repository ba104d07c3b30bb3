-- ===== src/State/Types.antt =====
-- state_manager.h: peer states, peers, ghost messages; and the static arrays of state_manager.c.
use orcashi.Prelude.{ℕ, zero, suc, ℤ, pos, Bool, true, false, List, [], replicate, if◌then◌else◌}
use orcashi.CString.Text.{Bytes, codes}

-- `invalid n` is an int that names no state: `state_load` stores whatever number it reads.
pub data PeerState : Type 0 where
  unknown request_sent request_received friend online offline busy ghost : PeerState
  invalid : ℤ → PeerState

unfoldable pub state_to_string : PeerState → Bytes
state_to_string unknown = codes "unknown"
state_to_string request_sent = codes "request_sent"
state_to_string request_received = codes "request_received"
state_to_string friend = codes "friend"
state_to_string online = codes "online"
state_to_string offline = codes "offline"
state_to_string busy = codes "busy"
state_to_string ghost = codes "ghost"
state_to_string (invalid n) = codes "unknown"

-- The number of a state, and back.
unfoldable pub state_number : PeerState → ℤ
state_number unknown = pos 0
state_number request_sent = pos 1
state_number request_received = pos 2
state_number friend = pos 3
state_number online = pos 4
state_number offline = pos 5
state_number busy = pos 6
state_number ghost = pos 7
state_number (invalid n) = n

unfoldable pub state_of_number : ℤ → PeerState
state_of_number (pos zero) = unknown
state_of_number (pos (suc zero)) = request_sent
state_of_number (pos (suc (suc zero))) = request_received
state_of_number (pos (suc (suc (suc zero)))) = friend
state_of_number (pos (suc (suc (suc (suc zero))))) = online
state_of_number (pos (suc (suc (suc (suc (suc zero)))))) = offline
state_of_number (pos (suc (suc (suc (suc (suc (suc zero))))))) = busy
state_of_number (pos (suc (suc (suc (suc (suc (suc (suc zero)))))))) = ghost
state_of_number n = invalid n

abbrev pub is_friend_state : PeerState → Bool
is_friend_state friend = true
is_friend_state _ = false

-- `state == PEER_REQUEST_SENT || state == PEER_REQUEST_RECEIVED`
abbrev pub is_pending_state : PeerState → Bool
is_pending_state request_sent = true
is_pending_state request_received = true
is_pending_state _ = false

pub record Peer : Type 0 where
  pub id : Bytes
  pub state : PeerState
  pub online : Bool
  pub busy : Bool
  pub is_secure : Bool
  pub ip : Bytes
  pub port : ℤ
  pub last_seen : ℤ
  pub created_at : ℤ
  pub request_sent_at : ℤ
  pub request_received_at : ℤ
  pub friend_since : ℤ
  pub pending_messages : ℤ
  pub ghost_count : ℤ
  pub public_key : Bytes
  pub name : Bytes

pub record GhostMessage : Type 0 where
  pub id : Bytes
  pub from_id : Bytes
  pub to_id : Bytes
  pub message : Bytes
  pub timestamp : ℤ
  pub delivered : Bool
  pub delivered_at : ℤ
  pub retry_count : ℤ

abbrev pub zero_peer : Peer
zero_peer = record {
  id = [];
  state = unknown;
  online = false;
  busy = false;
  is_secure = false;
  ip = [];
  port = pos 0;
  last_seen = pos 0;
  created_at = pos 0;
  request_sent_at = pos 0;
  request_received_at = pos 0;
  friend_since = pos 0;
  pending_messages = pos 0;
  ghost_count = pos 0;
  public_key = [];
  name = [];
}

abbrev pub zero_ghost : GhostMessage
zero_ghost = record {
  id = [];
  from_id = [];
  to_id = [];
  message = [];
  timestamp = pos 0;
  delivered = false;
  delivered_at = pos 0;
  retry_count = pos 0;
}

abbrev pub max_peers : ℕ
max_peers = 256

abbrev pub max_ghost_messages : ℕ
max_ghost_messages = 1024

abbrev pub max_messages : ℕ
max_messages = 4096

-- The static data. An array is the list of all its slots; the count says how many are in use, and
-- a slot behind them keeps what was last written to it.
pub record Store : Type 0 where
  pub peers : List Peer
  pub peer_count : ℕ
  pub ghosts : List GhostMessage
  pub ghost_count : ℕ
  pub messages : List Bytes
  pub message_count : ℕ
  pub initialized : Bool

-- The zeroed arrays, as they are before `state_init`, which sets them to 0 again.
abbrev pub zero_store : Store
zero_store = record {
  peers = replicate max_peers zero_peer;
  peer_count = 0;
  ghosts = replicate max_ghost_messages zero_ghost;
  ghost_count = 0;
  messages = replicate max_messages [];
  message_count = 0;
  initialized = false;
}

-- `state_init` where there is no state file: `state_load` then returns at once. What it reads from a
-- file is not modelled.
abbrev pub state_init : Store → Store
state_init s = if s.initialized then s else record zero_store { initialized = true }
