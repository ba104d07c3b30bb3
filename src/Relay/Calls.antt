-- ===== src/Relay/Calls.antt =====
-- friend_relay.c: what the program asks of the relayed connections.
use orcashi.Prelude.{
  ℕ, zero, suc, ℤ, Bool, true, false, not, ◌&&◌, Option, none, some, [], ◌∷◌, ◌++◌, ◌==◌, ltb, min,
  if◌then◌else◌, Code, ok, err, is_positive,
}
use orcashi.CString.Text.{Bytes, codes, fit, text_of, is_empty}
use orcashi.CString.Number.{show_nat}
use orcashi.CString.Memory.{Run, done, overrun, strcpy, read_bytes, ◌>>=◌}
use orcashi.Relay.Types.{
  RelayState, RelaySession, RelayManager, Net, idle, connecting, established, is_established,
}
use orcashi.Relay.Table.{session_at, put_session, relay_find_session, find_or_add}
use orcashi.Relay.Packet.{relay_magic, read_packet, build_packet, packet_size, payload_offset}

-- `strcpy` of a text that may be missing.
unfoldable pub copy_name : Option Bytes → Bytes → Run Bytes
copy_name none old = done old
copy_name (some name) old = strcpy 64 name

abbrev pub calling : Bytes → Bytes → ℤ → RelaySession → RelaySession
calling relay_id ip port s = record s {
  state = connecting;
  relay_id = relay_id;
  ip = ip;
  port = port;
  is_initiator = true;
}

-- `snprintf(handshake, 512, "RELAY_HANDSHAKE:%s:%u:%s", …)`
unfoldable pub handshake_text : Bytes → ℕ → Bytes → Bytes
handshake_text peer_id session_id my_id =
    fit 512 (codes "RELAY_HANDSHAKE:" ++ (peer_id ++ (58 ∷ (show_nat session_id ++ (58 ∷ my_id)))))

abbrev pub set_state : RelaySession → RelayState → RelaySession
set_state s state = record s { state = state }

-- `relay_connect` up to its wait for an answer.
pub data Begun : Type 0 where
  failed already : Begun
  waiting : ℕ → Begun

unfoldable pub send_handshake :
    Net → Bytes → Bytes → ℤ → ℕ → RelayManager → Run (Begun × RelayManager)
unfolding handshake_text
send_handshake net peer_id ip port i m =
    strcpy 64 (elim net.identity [ none ↦ m.my_id | some id ↦ id ]) >>= λ my_id.
    if net.sends
    then done (
      waiting i,
      record m {
        sent =
            m.sent ++ (((ip, port), handshake_text peer_id (session_at m i).session_id my_id) ∷ []);
      },
    )
    else done (failed, put_session m i (set_state (session_at m i) idle))

unfoldable pub start_session :
    Net → Bytes → Option Bytes → Bytes → ℤ → ℕ → RelayManager → Run (Begun × RelayManager)
unfolding copy_name send_handshake
start_session net peer_id relay_id ip port i m =
    if is_established (session_at m i).state
    then done (already, m)
    else copy_name relay_id (session_at m i).relay_id >>= λ name. strcpy 16 ip >>= λ address.
        send_handshake net peer_id ip port i
          (put_session m i (calling name address port (session_at m i)))

unfoldable pub begin_connect :
    Net → Bytes → Option Bytes → Bytes → ℤ → RelayManager → Run (Begun × RelayManager)
unfolding find_or_add start_session
begin_connect net peer_id relay_id ip port m =
    if not (is_positive port)
    then done (failed, m)
    else find_or_add net peer_id m >>= λ (found, m1). elim found [
      | none ↦ done (failed, m1)
      | some i ↦ start_session net peer_id relay_id ip port i m1
    ]

-- Whether a text starts with another, and `strstr(s, t) != NULL`.
unfoldable pub starts_with : Bytes → Bytes → Bool
starts_with [] s = true
starts_with (c ∷ t) [] = false
starts_with (c ∷ t) (d ∷ s) = (c == d) && starts_with t s

unfoldable pub contains : Bytes → Bytes → Bool
unfolding starts_with
contains t [] = is_empty t
contains t (d ∷ s) = let rest = contains t s in if starts_with t (d ∷ s) then true else rest

-- The secret is drawn at random, on each side for itself.
unfoldable pub relay_generate_session_keys : Net → RelaySession → RelaySession
relay_generate_session_keys net s = record s { shared_secret = net.random; is_secure = true }

-- `relay_connect` behind its wait: what was received within the time, if anything was.
unfoldable pub finish_connect : Net → ℕ → Option Bytes → RelayManager → Code × RelayManager
unfolding contains relay_generate_session_keys
finish_connect net i none m = (err, put_session m i (set_state (session_at m i) idle))
finish_connect net i (some received) m =
    if contains (codes "RELAY_HANDSHAKE_OK") (text_of (fit 512 received))
    then (
      ok,
      put_session m i (
          relay_generate_session_keys net
            (record (session_at m i) { state = established; last_activity = net.now })),
    )
    else (err, put_session m i (set_state (session_at m i) idle))

abbrev pub taking : Net → Bytes → RelaySession → RelaySession
taking net relay_id s = relay_generate_session_keys net (record s {
  relay_id = relay_id;
  state = established;
  is_initiator = false;
  last_activity = net.now;
})

unfoldable pub relay_accept : Net → Bytes → Option Bytes → RelayManager → Run (Code × RelayManager)
unfolding find_or_add copy_name relay_generate_session_keys
relay_accept net peer_id relay_id m = find_or_add net peer_id m >>= λ (found, m1). elim found [
  | none ↦ done (err, m1)
  | some i ↦ copy_name relay_id (session_at m1 i).relay_id >>= λ name.
      done (ok, put_session m1 i (taking net name (session_at m1 i)))
]

-- Without a socket of its own the session is to use that of `g_relay_mgr`, which nothing sets: the code reads through a null pointer.
unfoldable pub relay_send_packet : Net → ℕ → ℕ → Bytes → RelayManager → Run (Code × RelayManager)
unfolding build_packet
relay_send_packet net i type payload m =
    if not net.memory then done (err, m) else elim (session_at m i).socket_fd [
      | none ↦ overrun
      | some zero ↦ overrun
      | some (suc fd) ↦
          if net.sends
          then done (
            ok,
            record (put_session m i (record (session_at m i) { last_activity = net.now })) {
              sent =
                  m.sent
                  ++ ((
                    ((session_at m i).ip, (session_at m i).port),
                    build_packet net type (session_at m i).session_id payload,
                  )
                      ∷ []);
            },
          )
          else done (err, m)
    ]

abbrev pub type_data : ℕ
type_data = 3

-- The first byte of the secret is not zero.
abbrev pub has_secret : Bytes → Bool
has_secret [] = false
has_secret (c ∷ s) = ltb 0 c

abbrev pub send_data : Net → Bytes → ℕ → RelayManager → Run (Code × RelayManager)
send_data net bytes i m =
    if (session_at m i).is_secure && has_secret (session_at m i).shared_secret
    then elim (net.encrypt bytes (session_at m i).shared_secret net.nonce) [
      | none ↦ done (err, m)
      | some (tag, ciphertext) ↦
          if not net.memory
          then done (err, m)
          else relay_send_packet net i type_data (net.nonce ++ (tag ++ ciphertext)) m
    ]
    else relay_send_packet net i type_data bytes m

unfoldable pub relay_send : Net → Bytes → Bytes → RelayManager → Run (Code × RelayManager)
unfolding relay_find_session relay_send_packet
relay_send net peer_id bytes m =
    if is_empty bytes then done (err, m) else elim (relay_find_session peer_id m) [
      | none ↦ done (err, m)
      | some i ↦
          if is_established (session_at m i).state then send_data net bytes i m else done (err, m)
    ]

-- What recvfrom gives: an error, nothing to read yet, or `n` bytes at the start of the buffer of 4096.
pub data Received : Type 0 where
  error would_block : Received
  bytes : ℕ → Bytes → Received

-- What is handed to the program: an error, nothing, or the bytes that are copied to its buffer.
pub data Handed : Type 0 where
  refused nothing : Handed
  copied : Bytes → Handed

unfoldable pub take_packet : Net → ℕ → ℕ → ℕ → Bytes → RelayManager → Run (Handed × RelayManager)
unfolding read_packet
take_packet net i max_len n buffer m =
    if ltb n packet_size then done (refused, m) else elim (read_packet buffer) [
      | none ↦ overrun
      | some (packet, payload) ↦
          if not (packet.magic == relay_magic)
          then done (refused, m)
          else if not (packet.session_id == (session_at m i).session_id)
          then done (refused, m)
          else if packet.type == type_data
          then (read_bytes payload_offset (min packet.payload_len max_len) buffer >>= λ copy.
              done (
                copied copy,
                put_session m i (record (session_at m i) { last_activity = net.now }),
              ))
          else done (nothing, m)
    ]

unfoldable pub relay_recv : Net → Bytes → ℕ → Received → RelayManager → Run (Handed × RelayManager)
unfolding relay_find_session take_packet
relay_recv net peer_id max_len received m =
    if max_len == 0 then done (refused, m) else elim (relay_find_session peer_id m) [
      | none ↦ done (refused, m)
      | some i ↦
          if is_established (session_at m i).state
          then elim received [
            | error ↦ done (refused, m)
            | would_block ↦ done (nothing, m)
            | bytes n buffer ↦ take_packet net i max_len n buffer m
          ]
          else done (refused, m)
    ]
