-- ===== src/P2p/Handlers.antt =====
-- p2p_manager.c: what a message does. `payload` is the buffer from the payload on, to its end.
use orcashi.Prelude.{
  ℕ, zero, suc, ◌-◌, ℤ, Bool, true, not, ◌&&◌, Option, none, some, List, [], ◌∷◌, ◌++◌, ◌==◌, ltb,
  if◌then◌else◌, Code, ok, err,
}
use orcashi.CString.Text.{Bytes}
use orcashi.CString.Memory.{Run, done, overrun, ◌>>=◌, c_string, write_nul, strcpy, read_bytes}
use orcashi.State.Types.{friend, request_received}
use orcashi.Events.Types.{
  Event, accept_confirm, add_request, reject_confirm, message_received, event_create,
}
use orcashi.Events.World.{
  Call, update_peer, set_online, set_ip, set_port, push_event, add_message, deliver_ghost_messages,
  remove_peer,
}
use orcashi.P2p.Types.{P2pPeer, Manager, Host, Identity, disconnected, established}
use orcashi.P2p.Message.{P2pMessage, p2p_magic, header_len, read_message}
use orcashi.P2p.Table.{and_then, peer_at, put_peer, act}
use orcashi.P2p.Channel.{signed_text, establish_secure_channel}

-- `strchr(s, '|')`: the texts before and behind the bar, if there is one.
unfoldable pub split_bar : Bytes → Run (Option (Bytes × Bytes))
split_bar [] = overrun
split_bar (zero ∷ s) = done none
split_bar (suc c ∷ s) =
    let rest = split_bar s in
    if suc c == b'|'
    then done (some ([], s))
    else rest >>= λ o.
        done (elim o [ none ↦ none | some (before, behind) ↦ some (suc c ∷ before, behind) ])

-- A handler's end: the peer was heard of at `now`.
abbrev pub heard : ℤ → ℕ → Manager → Manager
heard now i m = put_peer m i (record (peer_at m i) { last_activity = now })

abbrev pub handshake_calls : ℤ → P2pPeer → List Call
handshake_calls now p =
    update_peer p.id friend
    ∷ set_online p.id true
    ∷ set_ip p.id p.ip
    ∷ set_port p.id p.port
    ∷ push_event (event_create accept_confirm p.id now)
    ∷ []

-- The part of `handle_handshake` behind the check of the signature.
unfoldable pub accept_handshake : Host → ℕ → Bytes → Manager → Code × Manager
unfolding establish_secure_channel
accept_handshake h i pubkey m =
    let m1 = put_peer m i (record (peer_at m i) { public_key = pubkey; is_secure = true }) in
    and_then (establish_secure_channel h i m1) λ m2. (
      ok,
      act h.now (handshake_calls h.now (peer_at m2 i))
          (put_peer m2 i (record (peer_at m2 i) { state = established; last_activity = h.now })),
    )

-- The part behind the texts of the payload; the third argument is what the file of the identity
-- holds.
unfoldable pub check_handshake :
    Host → ℕ → Option Identity → Bytes → Bytes → Bytes → Manager → Run (Code × Manager)
unfolding accept_handshake
check_handshake h i none id pubkey signature m = done (err, m)
check_handshake h i (some identity) id pubkey signature m =
    if not (h.verify (signed_text id identity h.now) signature pubkey)
    then done (err, m)
    else (strcpy 4096 pubkey >>= λ text. done (accept_handshake h i text m))

unfoldable pub handle_handshake : Host → ℕ → Bytes → Manager → Run (Code × Manager)
unfolding split_bar check_handshake
handle_handshake h i payload m = split_bar payload >>= λ first. elim first [
  | none ↦ done (err, m)
  | some (id, behind) ↦ split_bar behind >>= λ second. elim second [
    | none ↦ done (err, m)
    | some (pubkey, tail) ↦
        c_string tail >>= λ signature. check_handshake h i h.identity id pubkey signature m
  ]
]

-- The event of a message from a peer.
abbrev pub message_event : ℤ → Bytes → Bytes → Event
message_event now id text = record (event_create message_received id now) {
  from_id = id;
  message = text;
}

unfoldable pub take_text : Host → ℕ → Bytes → Manager → Run (Code × Manager)
take_text h i text m = do
  copy ← strcpy 4096 text
  let id = (peer_at m i).id
  done (
    ok,
    heard h.now i
        (act h.now (push_event (message_event h.now id copy) ∷ add_message id text ∷ []) m),
  )

-- What `orca_aes_gcm_decrypt` gives, with the NUL that it puts behind it.
unfoldable pub take_plaintext : Host → ℕ → Option Bytes → Manager → Run (Code × Manager)
unfolding take_text
take_plaintext h i none m = done (err, m)
take_plaintext h i (some plaintext) m =
    c_string (plaintext ++ (0 ∷ [])) >>= λ text. take_text h i text m

unfoldable pub take_sealed : Host → ℕ → P2pMessage → Bytes → Manager → Run (Code × Manager)
unfolding take_plaintext
take_sealed h i msg payload m = do
  nonce ← read_bytes 0 12 payload
  tag ← read_bytes 12 16 payload
  ciphertext ← read_bytes 28 (msg.payload_len - 28) payload
  take_plaintext h i (h.decrypt (peer_at m i).aes_key nonce tag ciphertext) m

unfoldable pub take_clear : Host → ℕ → P2pMessage → Bytes → Manager → Run (Code × Manager)
unfolding take_text
take_clear h i msg payload m = do
  payload' ← write_nul msg.payload_len payload
  text ← c_string payload'
  take_text h i text m

unfoldable pub handle_data : Host → ℕ → P2pMessage → Bytes → Manager → Run (Code × Manager)
unfolding take_sealed take_clear
handle_data h i msg payload m =
    if (peer_at m i).is_secure && ltb 28 msg.payload_len
    then take_sealed h i msg payload m
    else take_clear h i msg payload m

-- The sender's id that the payload holds.
unfoldable pub sender_id : P2pMessage → Bytes → Run Bytes
sender_id msg payload = write_nul msg.payload_len payload >>= c_string

abbrev pub request_event : ℤ → Bytes → P2pPeer → Event
request_event now from_id p = record (event_create add_request from_id now) {
  from_id = from_id;
  ip = p.ip;
  port = p.port;
}

-- The calls come before the copy into the event, which holds 64 bytes of an id.
unfoldable pub handle_add_request : Host → ℕ → P2pMessage → Bytes → Manager → Run (Code × Manager)
unfolding sender_id
handle_add_request h i msg payload m = do
  from_id ← sender_id msg payload
  let p = peer_at m i
  let m' =
      act h.now
        (update_peer from_id request_received ∷ set_ip from_id p.ip ∷ set_port from_id p.port ∷ [])
        m
  copy ← strcpy 64 from_id
  done (ok, act h.now (push_event (request_event h.now copy p) ∷ []) m')

abbrev pub confirm_calls : ℤ → Bytes → P2pPeer → List Call
confirm_calls now from_id p =
    update_peer from_id friend
    ∷ set_online from_id true
    ∷ set_ip from_id p.ip
    ∷ set_port from_id p.port
    ∷ deliver_ghost_messages from_id
    ∷ push_event (event_create accept_confirm from_id now)
    ∷ []

unfoldable pub handle_accept_confirm :
    Host → ℕ → P2pMessage → Bytes → Manager → Run (Code × Manager)
unfolding sender_id
handle_accept_confirm h i msg payload m = do
  from_id ← sender_id msg payload
  done (ok, act h.now (confirm_calls h.now from_id (peer_at m i)) m)

unfoldable pub handle_reject_confirm :
    Host → ℕ → P2pMessage → Bytes → Manager → Run (Code × Manager)
unfolding sender_id
handle_reject_confirm h i msg payload m = do
  from_id ← sender_id msg payload
  done (
    ok,
    act h.now (remove_peer from_id ∷ push_event (event_create reject_confirm from_id h.now) ∷ []) m,
  )

abbrev pub is_header : P2pMessage → Bool
is_header msg = msg.magic == p2p_magic && msg.version == 1

-- The switch over the type of a message.
unfoldable pub dispatch : Host → ℕ → P2pMessage → Bytes → Manager → Run (Code × Manager)
unfolding handle_handshake handle_data handle_add_request handle_accept_confirm
    handle_reject_confirm
dispatch h i msg payload m =
    if msg.type == 1
    then handle_handshake h i payload m
    else if msg.type == 2
    then done (
      ok,
      put_peer m i
          (record (peer_at m i) { state = established; is_secure = true; last_activity = h.now }),
    )
    else if msg.type == 3
    then handle_data h i msg payload m
    else if msg.type == 4
    then done (ok, heard h.now i m)
    else if msg.type == 5
    then done (ok, put_peer m i (record (peer_at m i) { state = disconnected }))
    else if msg.type == 6
    then handle_add_request h i msg payload m
    else if msg.type == 7
    then handle_accept_confirm h i msg payload m
    else if msg.type == 8
    then handle_reject_confirm h i msg payload m
    else done (err, m)

unfoldable pub process_message : Host → ℕ → Bytes → ℕ → Manager → Run (Code × Manager)
unfolding dispatch
process_message h i buffer msg_len m =
    if ltb msg_len header_len then done (err, m) else elim (read_message buffer) [
      | none ↦ overrun
      | some (msg, payload) ↦ if is_header msg then dispatch h i msg payload m else done (err, m)
    ]
