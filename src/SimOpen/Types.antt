-- ===== src/SimOpen/Types.antt =====
-- simultaneous_open.h: the data.
use orcashi.Prelude.{ℕ, ℤ, Bool, true, false, Option, List, Code}
use orcashi.CString.Text.{Bytes}

pub data SimOpenState : Type 0 where
  idle connecting syncing established failed : SimOpenState

abbrev pub is_established : SimOpenState → Bool
is_established established = true
is_established _ = false

abbrev pub is_syncing : SimOpenState → Bool
is_syncing syncing = true
is_syncing _ = false

-- `socket_fd` is `none` for -1; nothing reads `peer_addr`. `sent` holds what was handed to the
-- socket, each send apart.
pub record Session : Type 0 where
  pub target_ip : Bytes
  pub target_port : ℤ
  pub local_port : ℕ
  pub socket_fd : Option ℕ
  pub state : SimOpenState
  pub sync_token : ℕ
  pub start_time : ℤ
  pub last_activity : ℤ
  pub retry_count : ℕ
  pub is_initiator : Bool
  pub peer_ip : Bytes
  pub peer_port : ℤ
  pub sent : List Bytes

-- The clock, and whether malloc and send succeed.
pub record Net : Type 0 where
  pub now : ℤ
  pub memory : Bool
  pub sends : Bool

-- What a wait on the socket gives: an error, nothing in time, the end of the stream, or bytes.
pub data Reception : Type 0 where
  failure nothing ending : Reception
  bytes : Bytes → Reception

-- What the start of a connection meets: the port that rand() chooses, the socket, the token, and
-- how connect() ends, where EINPROGRESS is no error.
pub record Opening : Type 0 where
  pub now : ℤ
  pub port : ℕ
  pub socket : Option ℕ
  pub token : ℕ
  pub connects : Code
