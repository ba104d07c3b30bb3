-- ===== src/Relay/Histories.antt =====
-- The steps of the relayed connections, in any order, and what cannot be sent after them.
use orcashi.Prelude.{
  ℕ, zero, suc, ◌-◌, ◌≡◌, refl, ap, ◌∙◌, List, [], ◌∷◌, ◌++◌, map, take, drop, length, All, arith,
  ℤ, Bool, true, false, if◌then◌else◌, not, ◌&&◌, Option, ◌==◌, ltb, min, Code,
}
use orcashi.CString.Text.{Bytes, codes, str_eq, is_empty}
use orcashi.CString.Number.{atoi}
use orcashi.CString.Memory.{
  Run, done, AtEnd, AtEnd-done, AtEnd-overrun, AtEnd-option, AtEnd-if, AtEnd-bind, AtEnd-then,
  strcpy, read_bytes, c_string,
}
use orcashi.P2p.Types.{u32}
use orcashi.Relay.Types.{RelayManager, RelaySession, Net, is_established}
use orcashi.Relay.Table.{
  session_at, find_session, relay_find_session, relay_add_session, relay_disconnect,
  relay_manager_init, relay_manager_enable_relay, relay_manager_cleanup, without_socket,
}
use orcashi.Relay.Packet.{RelayPacket, read_packet, packet_size, relay_magic, payload_offset}
use orcashi.Relay.Calls.{
  begin_connect, finish_connect, relay_accept, relay_send_packet, relay_send, Begun, Received,
  error, would_block, bytes, Handed, refused, take_packet, relay_recv, starts_with, has_secret,
  type_data, relay_generate_session_keys,
}
use orcashi.Relay.Listener.{
  strtok, joined, join, take_tokens, take_handshake, relay_process_packet, has_number, relay_listen,
}
use orcashi.Relay.Keeps.{
  IsRelay, NoSocket, closed-NoSocket, After, of-if, same-IsRelay, disconnect-IsRelay,
  add_session-After, init-IsRelay, begin_connect-After, finish_connect-IsRelay, accept-After,
  send_packet-lost,
}

-- One step: a call of the program, also the end of the manager once its threads have ended, the end of a wait of `relay_connect`, or a datagram at the listener. Between the two parts of
-- `relay_connect` other steps may come.
pub data Step : RelayManager → RelayManager → Type 0 where
  begins :
      (net : Net) (peer_id : Bytes) (relay_id : Option Bytes) (ip : Bytes) (port : ℤ)
      {m m' : RelayManager} (r : Begun)
      → begin_connect net peer_id relay_id ip port m ≡ done (r, m')
      → Step m m'
  finishes :
      (net : Net) (i : ℕ) (received : Option Bytes) {m : RelayManager}
      → Step m (finish_connect net i received m).1
  accepts :
      (net : Net) (peer_id : Bytes) (relay_id : Option Bytes) {m m' : RelayManager} (code : Code)
      → relay_accept net peer_id relay_id m ≡ done (code, m')
      → Step m m'
  disconnects : (peer_id : Bytes) {m : RelayManager} → Step m (relay_disconnect peer_id m).1
  enables : (enable : Bool) {m : RelayManager} → Step m (relay_manager_enable_relay enable m).1
  cleans : {m : RelayManager} → Step m (relay_manager_cleanup m)
  sends :
      (net : Net) (peer_id text : Bytes) {m m' : RelayManager} (code : Code)
      → relay_send net peer_id text m ≡ done (code, m')
      → Step m m'
  receives :
      (net : Net) (peer_id : Bytes) (max_len : ℕ) (received : Received) {m m' : RelayManager}
      (handed : Handed)
      → relay_recv net peer_id max_len received m ≡ done (handed, m')
      → Step m m'
  listens :
      (net : Net) (ip : Bytes) (port : ℤ) (n : ℕ) (buffer : Bytes) {m m' : RelayManager}
      → relay_listen net ip port n buffer m ≡ done m'
      → Step m m'

pub data Reach : RelayManager → Type 0 where
  start :
      (net : Net) (my_id : Bytes) (port : ℤ) (m : RelayManager) {m' : RelayManager} (code : Code)
      → relay_manager_init net my_id port m ≡ done (code, m')
      → Reach m'
  next : {m m' : RelayManager} → Reach m → Step m m' → Reach m'

-- What holds at the end of a run holds of its result.
result : {A : Type 0} (P : A → Type 0) (r : Run A) (a : A) → AtEnd P r → r ≡ done a → P a
unfolding AtEnd
result P r a h e = rw e at h

enable-IsRelay :
    (enable : Bool) {m : RelayManager} → IsRelay m → IsRelay (relay_manager_enable_relay enable m).1
unfolding relay_manager_enable_relay
enable-IsRelay enable {m} v =
    of-if m.initialized _ _
      (record { slots = v.slots; count_in = v.count_in; no_socket = v.no_socket }) v

-- Closing the sessions' sockets.
closed-All :
    (n : ℕ) (ss : List RelaySession)
    → All NoSocket ss
    → All NoSocket (map without_socket (take n ss) ++ drop n ss)
closed-All zero ss h = h
closed-All (suc n) [] h = tt
closed-All (suc n) (s ∷ ss) (a, h) = (closed-NoSocket s.socket_fd, closed-All n ss h)

length-closed :
    (n : ℕ) (ss : List RelaySession)
    → length (map without_socket (take n ss) ++ drop n ss) ≡ length ss
length-closed zero ss = refl
length-closed (suc n) [] = refl
length-closed (suc n) (s ∷ ss) = ap suc (length-closed n ss)

if-IsRelay : (b : Bool) (x y : RelayManager) → IsRelay x → IsRelay y → IsRelay (if b then x else y)
if-IsRelay true x y h g = h
if-IsRelay false x y h g = g

cleanup-IsRelay : {m : RelayManager} → IsRelay m → IsRelay (relay_manager_cleanup m)
unfolding relay_manager_cleanup
cleanup-IsRelay {m} v =
    if-IsRelay m.initialized _ _
      (record {
        slots = length-closed m.count m.sessions ∙ v.slots;
        count_in = omega arith;
        no_socket = closed-All m.count m.sessions v.no_socket;
      })
      v

module _ (net : Net) where
  lost-After :
      (i type : ℕ) (payload : Bytes) {m : RelayManager}
      → IsRelay m
      → AtEnd After (relay_send_packet net i type payload m)
  lost-After i type payload {m} v =
      rw (send_packet-lost net i type payload v)
        (AtEnd-if _ (not net.memory) _ _ (AtEnd-done _ v) (AtEnd-overrun _))

  send-After :
      (peer_id text : Bytes) {m : RelayManager}
      → IsRelay m
      → AtEnd After (relay_send net peer_id text m)
  unfolding relay_send
  send-After peer_id text {m} v = AtEnd-if _ (is_empty text) _ _ (AtEnd-done _ v) (
      AtEnd-option _ (relay_find_session peer_id m) _ _ (AtEnd-done _ v) λ i.
        AtEnd-if _ (is_established (session_at m i).state) _ _
          (AtEnd-if _ ((session_at m i).is_secure && has_secret (session_at m i).shared_secret) _ _
            (AtEnd-option _ (net.encrypt text (session_at m i).shared_secret net.nonce) _ _
              (AtEnd-done _ v)
              λ (tag, ciphertext).
                AtEnd-if _ (not net.memory) _ _ (AtEnd-done _ v) (lost-After i type_data _ v))
            (lost-After i type_data text v))
          (AtEnd-done _ v))

  take_packet-After :
      (i max_len n : ℕ) (buffer : Bytes) {m : RelayManager}
      → IsRelay m
      → AtEnd After (take_packet net i max_len n buffer m)
  unfolding take_packet
  take_packet-After i max_len n buffer {m} v = AtEnd-if _ (ltb n packet_size) _ _ (AtEnd-done _ v) (
      AtEnd-option _ (read_packet buffer) _ _ (AtEnd-overrun _) λ (packet, payload).
        AtEnd-if _ (not (packet.magic == relay_magic)) _ _ (AtEnd-done _ v) (
          AtEnd-if _ (not (packet.session_id == (session_at m i).session_id)) _ _ (AtEnd-done _ v) (
            AtEnd-if _ (packet.type == type_data) _ _
              (AtEnd-bind _ (read_bytes payload_offset (min packet.payload_len max_len) buffer) _
                λ copy. AtEnd-done _ (same-IsRelay i _ refl v))
              (AtEnd-done _ v))))

  received-After :
      (i max_len : ℕ) (received : Received) {m : RelayManager}
      → IsRelay m
      → AtEnd After (elim received as (λ r. Run (Handed × RelayManager)) [
        | error ↦ done (refused, m)
        | would_block ↦ done (Handed.nothing, m)
        | bytes n buffer ↦ take_packet net i max_len n buffer m
      ])
  received-After i max_len error v = AtEnd-done _ v
  received-After i max_len would_block v = AtEnd-done _ v
  received-After i max_len (bytes n buffer) v = take_packet-After i max_len n buffer v

  recv-After :
      (peer_id : Bytes) (max_len : ℕ) (received : Received) {m : RelayManager}
      → IsRelay m
      → AtEnd After (relay_recv net peer_id max_len received m)
  unfolding relay_recv
  recv-After peer_id max_len received {m} v = AtEnd-if _ (max_len == 0) _ _ (AtEnd-done _ v) (
      AtEnd-option _ (relay_find_session peer_id m) _ _ (AtEnd-done _ v) λ i.
        AtEnd-if _ (is_established (session_at m i).state) _ _ (received-After i max_len received v)
          (AtEnd-done _ v))

  join-After :
      (ip : Bytes) (port : ℤ) (peer_id : Bytes) (sid : ℕ) {m : RelayManager}
      → IsRelay m
      → AtEnd IsRelay (join net ip port peer_id sid m)
  unfolding join relay_generate_session_keys
  join-After ip port peer_id sid {m} v =
      AtEnd-then _ (relay_add_session net peer_id m) _ (add_session-After net peer_id v)
        λ (found, m1) v1. AtEnd-option _ found _ _ (AtEnd-done _ v1) λ i.
          AtEnd-bind _ (strcpy 16 ip) _ λ address.
            let v2 = same-IsRelay i (joined net sid address port (session_at m1 i)) refl v1 in
            AtEnd-done _
              (record { slots = v2.slots; count_in = v2.count_in; no_socket = v2.no_socket })

  handshake-After :
      (ip : Bytes) (port : ℤ) (text : Bytes) {m : RelayManager}
      → IsRelay m
      → AtEnd IsRelay (take_handshake net ip port text m)
  unfolding take_handshake take_tokens
  handshake-After ip port text {m} v =
      AtEnd-option _ (strtok text) _ _ (AtEnd-done _ v) λ (word, s1).
        AtEnd-if _ (str_eq word (codes "RELAY_HANDSHAKE")) _ _
          (AtEnd-option _ (strtok s1) _ _ (AtEnd-done _ v) λ (peer_id, s2).
            AtEnd-bind _ (strcpy 64 peer_id) _ λ peer.
              AtEnd-option _ (strtok s2) _ _ (AtEnd-done _ v) λ (sid, s3).
                AtEnd-option _ (strtok s3) _ _ (AtEnd-done _ v) λ (from_id, s4).
                  AtEnd-bind _ (strcpy 64 from_id) _
                    λ from. join-After ip port peer (u32 (atoi sid)) v)
          (AtEnd-done _ v)

  process-After :
      (i : ℕ) (packet : RelayPacket) (buffer : Bytes) {m : RelayManager}
      → IsRelay m
      → AtEnd IsRelay (relay_process_packet net i packet buffer m)
  unfolding relay_process_packet
  process-After i packet buffer {m} v =
      let v1 = same-IsRelay i (record (session_at m i) { last_activity = net.now }) refl v in
      AtEnd-if _ (not (packet.version == 1)) _ _ (AtEnd-done _ v) (
        AtEnd-if _ (packet.type == 2) _ _ (AtEnd-done _ (same-IsRelay i _ refl v1)) (
          AtEnd-if _ (packet.type == type_data) _ _
            (AtEnd-if _
              ((session_at m i).is_secure
                && (has_secret (session_at m i).shared_secret && not (ltb packet.payload_len 28)))
              _ _
              (AtEnd-bind _ (read_bytes 50 (packet.payload_len - 28) buffer) _
                λ ciphertext. AtEnd-done _ v1)
              (AtEnd-done _ v1))
            (AtEnd-if _ (packet.type == 5) _ _ (AtEnd-done _ (same-IsRelay i _ refl v1))
              (AtEnd-done _ v1))))

  listen-After :
      (ip : Bytes) (port : ℤ) (n : ℕ) (buffer : Bytes) {m : RelayManager}
      → IsRelay m
      → AtEnd IsRelay (relay_listen net ip port n buffer m)
  unfolding relay_listen
  listen-After ip port n buffer {m} v = AtEnd-if _ (ltb n packet_size) _ _ (AtEnd-done _ v) (
      AtEnd-option _ (read_packet buffer) _ _ (AtEnd-overrun _) λ (packet, payload).
        AtEnd-if _ (packet.magic == relay_magic) _ _
          (AtEnd-option _ (find_session (has_number packet.session_id) m.count m.sessions) _ _
            (AtEnd-if _ (packet.type == 1) _ _
              (AtEnd-bind _ (c_string payload) _ λ text. handshake-After ip port text v)
              (AtEnd-done _ v))
            λ i. process-After i packet buffer v)
          (AtEnd-if _ (starts_with (codes "RELAY_HANDSHAKE") buffer) _ _
            (AtEnd-bind _ (c_string buffer) _ λ text. handshake-After ip port text v)
            (AtEnd-done _ v)))

Step-IsRelay : {m m' : RelayManager} → Step m m' → IsRelay m → IsRelay m'
Step-IsRelay (begins net peer_id relay_id ip port r e) v =
    result After _ _ (begin_connect-After net peer_id relay_id ip port v) e
Step-IsRelay (finishes net i received) v = finish_connect-IsRelay net i received v
Step-IsRelay (accepts net peer_id relay_id code e) v =
    result After _ _ (accept-After net peer_id relay_id v) e
Step-IsRelay (disconnects peer_id) v = disconnect-IsRelay peer_id v
Step-IsRelay (enables enable) v = enable-IsRelay enable v
Step-IsRelay cleans v = cleanup-IsRelay v
Step-IsRelay (sends net peer_id text code e) v = result After _ _ (send-After net peer_id text v) e
Step-IsRelay (receives net peer_id max_len received handed e) v =
    result After _ _ (recv-After net peer_id max_len received v) e
Step-IsRelay (listens net ip port n buffer e) v =
    result IsRelay _ _ (listen-After net ip port n buffer v) e

-- Whatever the program asks and whatever is received, in any order, the table of sessions keeps its 32 slots and a count within them, and
-- no session has a socket of its own.
pub Reach-IsRelay : {m : RelayManager} → Reach m → IsRelay m
Reach-IsRelay (start net my_id port m code e) = result After _ _ (init-IsRelay net my_id port m) e
Reach-IsRelay (next r step) = Step-IsRelay step (Reach-IsRelay r)
