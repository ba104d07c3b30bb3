-- ===== src/Relay/Listener.antt =====
-- friend_relay.c: a datagram at the listener.
use orcashi.Prelude.{
  ℕ, ◌-◌, ℤ, Bool, false, not, ◌&&◌, Option, none, some, [], ◌∷◌, ◌++◌, ◌==◌, ltb, if◌then◌else◌,
}
use orcashi.CString.Text.{Bytes, codes, fit, str_eq, is_empty}
use orcashi.CString.Number.{show_nat, atoi}
use orcashi.CString.Memory.{Run, done, overrun, strcpy, read_bytes, c_string, ◌>>=◌}
use orcashi.P2p.Types.{u32}
use orcashi.Relay.Types.{RelaySession, RelayManager, Net, established, closed}
use orcashi.Relay.Table.{session_at, put_session, find_session, relay_add_session}
use orcashi.Relay.Packet.{RelayPacket, relay_magic, read_packet, packet_size}
use orcashi.Relay.Calls.{starts_with, relay_generate_session_keys, type_data, has_secret}

-- `strtok(s, ":")` and `strtok(NULL, ":")`: a token and what is left behind it.
unfoldable pub skip_colons : Bytes → Bytes
skip_colons [] = []
skip_colons (c ∷ s) = let rest = skip_colons s in if c == 58 then rest else c ∷ s

unfoldable pub until_colon : Bytes → Bytes × Bytes
until_colon [] = ([], [])
until_colon (c ∷ s) =
    let (token, rest) = until_colon s in if c == 58 then ([], s) else (c ∷ token, rest)

unfoldable pub strtok : Bytes → Option (Bytes × Bytes)
unfolding skip_colons until_colon
strtok s = if is_empty (skip_colons s) then none else some (until_colon (skip_colons s))

abbrev pub joined : Net → ℕ → Bytes → ℤ → RelaySession → RelaySession
joined net sid ip port s = relay_generate_session_keys net (record s {
  session_id = sid;
  state = established;
  is_initiator = false;
  last_activity = net.now;
  ip = ip;
  port = port;
})

-- The answer to a handshake; whether it is sent is not looked at.
abbrev pub ok_text : ℕ → Bytes
ok_text sid = fit 128 (codes "RELAY_HANDSHAKE_OK:" ++ show_nat sid)

unfoldable pub join : Net → Bytes → ℤ → Bytes → ℕ → RelayManager → Run RelayManager
unfolding relay_add_session relay_generate_session_keys
join net ip port peer_id sid m = relay_add_session net peer_id m >>= λ (found, m1). elim found [
  | none ↦ done m1
  | some i ↦ strcpy 16 ip >>= λ address.
      done (record (put_session m1 i (joined net sid address port (session_at m1 i))) {
        sent = if net.sends then m1.sent ++ (((ip, port), ok_text sid) ∷ []) else m1.sent;
      })
]

-- The tokens of a handshake, each copied to an array of 64 bytes as it is found.
unfoldable pub take_tokens : Net → Bytes → ℤ → Bytes → RelayManager → Run RelayManager
unfolding strtok
take_tokens net ip port s1 m = elim (strtok s1) [
  | none ↦ done m
  | some (peer_id, s2) ↦ strcpy 64 peer_id >>= λ peer. elim (strtok s2) [
    | none ↦ done m
    | some (sid, s3) ↦ elim (strtok s3) [
      | none ↦ done m
      | some (from_id, s4) ↦ strcpy 64 from_id >>= λ from. join net ip port peer (u32 (atoi sid)) m
    ]
  ]
]

unfoldable pub take_handshake : Net → Bytes → ℤ → Bytes → RelayManager → Run RelayManager
take_handshake net ip port text m = elim (strtok text) [
  | none ↦ done m
  | some (word, s1) ↦
      if str_eq word (codes "RELAY_HANDSHAKE") then take_tokens net ip port s1 m else done m
]

-- `relay_process_packet`: what it decrypts is thrown away. A short text behind a long length is read past the end of the buffer.
unfoldable pub relay_process_packet :
    Net → ℕ → RelayPacket → Bytes → RelayManager → Run RelayManager
relay_process_packet net i packet buffer m =
    if not (packet.version == 1)
    then done m
    else let m1 = put_session m i (record (session_at m i) { last_activity = net.now }) in
      if packet.type == 2
      then done (put_session m1 i (record (session_at m1 i) { state = established }))
      else if packet.type == type_data
      then (if (session_at m i).is_secure
            && (has_secret (session_at m i).shared_secret && not (ltb packet.payload_len 28))
          then (read_bytes 50 (packet.payload_len - 28) buffer >>= λ ciphertext. done m1)
          else done m1)
      else if packet.type == 5
      then done (put_session m1 i (record (session_at m1 i) { state = closed }))
      else done m1

abbrev pub has_number : ℕ → RelaySession → Bool
has_number session_id s = s.session_id == session_id

unfoldable pub relay_listen : Net → Bytes → ℤ → ℕ → Bytes → RelayManager → Run RelayManager
relay_listen net ip port n buffer m =
    if ltb n packet_size then done m else elim (read_packet buffer) [
      | none ↦ overrun
      | some (packet, payload) ↦
          if packet.magic == relay_magic
          then elim (find_session (has_number packet.session_id) m.count m.sessions) [
            | some i ↦ relay_process_packet net i packet buffer m
            | none ↦
                if packet.type == 1
                then (c_string payload >>= λ text. take_handshake net ip port text m)
                else done m
          ]
          else if starts_with (codes "RELAY_HANDSHAKE") buffer
          then (c_string buffer >>= λ text. take_handshake net ip port text m)
          else done m
    ]
