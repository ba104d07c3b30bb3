-- ===== src/Events/Types.antt =====
-- event_loop.h: the kinds of event, the event itself, and how one is made.
use orcashi.Prelude.{ℕ, ℤ, pos, Bool, false, Option, none, []}
use orcashi.CString.Text.{Bytes, fit, codes}

pub data EventType : Type 0 where
  none_ add_request accept_confirm reject_confirm message_received peer_online : EventType
  peer_offline ghost_delivered status_update dht_found dht_not_found error : EventType

-- `port`, `timestamp` are signed in C. `payload` is the pointer `data`.
pub record Event : Type 0 where
  pub kind : EventType
  pub peer_id : Bytes
  pub from_id : Bytes
  pub to_id : Bytes
  pub message : Bytes
  pub ip : Bytes
  pub port : ℤ
  pub timestamp : ℤ
  pub is_secure : Bool
  pub payload : Option Bytes
  pub data_len : ℕ

-- `memset(&event, 0, sizeof(event))`
abbrev pub zero_event : Event
zero_event = record {
  kind = none_;
  peer_id = [];
  from_id = [];
  to_id = [];
  message = [];
  ip = [];
  port = pos 0;
  timestamp = pos 0;
  is_secure = false;
  payload = none;
  data_len = 0;
}

-- `strncpy` into the 64 bytes of `peer_id`, of which the last stays NUL.
unfoldable pub event_create : EventType → Bytes → ℤ → Event
event_create kind peer_id now = record zero_event {
  kind = kind;
  timestamp = now;
  peer_id = fit 64 peer_id;
}

unfoldable pub event_type_to_string : EventType → Bytes
event_type_to_string add_request = codes "ADD_REQUEST"
event_type_to_string accept_confirm = codes "ACCEPT_CONFIRM"
event_type_to_string reject_confirm = codes "REJECT_CONFIRM"
event_type_to_string message_received = codes "MESSAGE_RECEIVED"
event_type_to_string peer_online = codes "PEER_ONLINE"
event_type_to_string peer_offline = codes "PEER_OFFLINE"
event_type_to_string ghost_delivered = codes "GHOST_DELIVERED"
event_type_to_string status_update = codes "STATUS_UPDATE"
event_type_to_string dht_found = codes "DHT_FOUND"
event_type_to_string dht_not_found = codes "DHT_NOT_FOUND"
event_type_to_string error = codes "ERROR"
event_type_to_string none_ = codes "UNKNOWN"

-- `event_free` releases the payload and clears the event.
unfoldable pub event_free : Event → Event
event_free e = zero_event
