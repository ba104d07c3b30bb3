-- ===== src/Relay/Lost.antt =====
-- What is sent through a relay, and how much of what is received is handed out.
use orcashi.Prelude.{
  ℕ, ◌≤◌, ◌≡◌, ◌≢◌, refl, ap, ◌∙◌, true, false, not, ◌&&◌, Option, none, some, [], ◌∷◌, ◌++◌, ◌==◌,
  arith, ltb, min, drop, length, length-take, Code, err, if◌then◌else◌, if-false, Bool-cases,
  Option-cases, inl, inr,
}
use orcashi.CString.Text.{Bytes, is_empty}
use orcashi.CString.Memory.{
  Run, done, overrun, Returns, Returns-done, Returns-if, Returns-option, read_bytes, read_bytes_ok,
  ◌>>=◌,
}
use orcashi.Relay.Types.{RelayManager, Net, is_established}
use orcashi.Relay.Table.{session_at, relay_find_session, relay_is_connected}
use orcashi.Relay.Packet.{RelayPacket, read_packet, packet_size, relay_magic, payload_offset}
use orcashi.Relay.Calls.{
  relay_send_packet, send_data, relay_send, bytes, Handed, copied, take_packet, relay_recv,
  has_secret, type_data,
}
use orcashi.Relay.Keeps.{IsRelay, send_packet-lost}
use orcashi.Relay.Histories.{Reach, Reach-IsRelay}

module _ (net : Net) (text : Bytes) {m : RelayManager} (v : IsRelay m) (memory : net.memory ≡ true)
    (sealed : (key : Bytes) → net.encrypt text key net.nonce ≢ none) where
  packet_lost : (i type : ℕ) (payload : Bytes) → relay_send_packet net i type payload m ≡ overrun
  packet_lost i type payload = send_packet-lost net i type payload v ∙ rw memory refl

  data_lost : (i : ℕ) → send_data net text i m ≡ overrun
  data_lost i =
      elim (Bool-cases ((session_at m i).is_secure && has_secret (session_at m i).shared_secret)) [
        | inr clear ↦ rw clear (packet_lost i type_data text)
        | inl secure ↦
            elim (Option-cases (net.encrypt text (session_at m i).shared_secret net.nonce)) [
              | inl e ↦ absurd (sealed (session_at m i).shared_secret e)
              | inr (r, e) ↦
                  rw (secure, e)
                    (if-false (not net.memory) _ _ (ap not memory)
                      ∙ packet_lost i type_data (net.nonce ++ (r.0 ++ r.1)))
            ]
      ]

  found_lost :
      (o : Option ℕ)
      → (elim o [ none ↦ false | some i ↦ is_established (session_at m i).state ]) ≡ true
      → (elim o as (λ o. Run (Code × RelayManager)) [
        | none ↦ done (err, m)
        | some i ↦
            if is_established (session_at m i).state then send_data net text i m else done (err, m)
      ])
        ≡ overrun
  found_lost none e = absurd (ground (arith, e))
  found_lost (some i) e = rw e (data_lost i)

-- After any history, sending data through a relay to a peer that is connected reads through a null pointer, where there is memory and
-- the data can be encrypted: nothing can be sent.
pub send_lost :
    (net : Net) (peer_id text : Bytes) {m : RelayManager}
    → Reach m
    → relay_is_connected m peer_id ≡ true
    → is_empty text ≡ false
    → net.memory ≡ true
    → ((key : Bytes) → net.encrypt text key net.nonce ≢ none)
    → relay_send net peer_id text m ≡ overrun
unfolding relay_send relay_is_connected
send_lost net peer_id text {m} r connected e memory sealed =
    rw e
      (found_lost net text (Reach-IsRelay r) memory sealed (relay_find_session peer_id m) connected)

-- At most so many bytes are handed out.
unfoldable pub IsWithin : ℕ → Handed → Type 0
IsWithin max_len (copied s) = length s ≤ max_len
IsWithin max_len _ = Unit

abbrev pub Within : ℕ → Handed × RelayManager → Type 0
Within max_len (handed, m) = IsWithin max_len handed

read_packet-some :
    (buffer : Bytes)
    → 24 ≤ length buffer
    → (r : RelayPacket × Bytes) × (read_packet buffer ≡ some r)
unfolding read_packet
read_packet-some [] h = absurd (ground arith)
read_packet-some (b0 ∷ []) h = absurd (ground arith)
read_packet-some (b0 ∷ b1 ∷ []) h = absurd (ground arith)
read_packet-some (b0 ∷ b1 ∷ b2 ∷ []) h = absurd (ground arith)
read_packet-some (b0 ∷ b1 ∷ b2 ∷ b3 ∷ []) h = absurd (ground arith)
read_packet-some (b0 ∷ b1 ∷ b2 ∷ b3 ∷ b4 ∷ []) h = absurd (ground arith)
read_packet-some (b0 ∷ b1 ∷ b2 ∷ b3 ∷ b4 ∷ b5 ∷ []) h = absurd (ground arith)
read_packet-some (b0 ∷ b1 ∷ b2 ∷ b3 ∷ b4 ∷ b5 ∷ b6 ∷ []) h = absurd (ground arith)
read_packet-some (b0 ∷ b1 ∷ b2 ∷ b3 ∷ b4 ∷ b5 ∷ b6 ∷ b7 ∷ []) h = absurd (ground arith)
read_packet-some (b0 ∷ b1 ∷ b2 ∷ b3 ∷ b4 ∷ b5 ∷ b6 ∷ b7 ∷ b8 ∷ []) h = absurd (ground arith)
read_packet-some (b0 ∷ b1 ∷ b2 ∷ b3 ∷ b4 ∷ b5 ∷ b6 ∷ b7 ∷ b8 ∷ b9 ∷ []) h = absurd (ground arith)
read_packet-some (b0 ∷ b1 ∷ b2 ∷ b3 ∷ b4 ∷ b5 ∷ b6 ∷ b7 ∷ b8 ∷ b9 ∷ b10 ∷ []) h =
    absurd (ground arith)
read_packet-some (b0 ∷ b1 ∷ b2 ∷ b3 ∷ b4 ∷ b5 ∷ b6 ∷ b7 ∷ b8 ∷ b9 ∷ b10 ∷ b11 ∷ []) h =
    absurd (ground arith)
read_packet-some (b0 ∷ b1 ∷ b2 ∷ b3 ∷ b4 ∷ b5 ∷ b6 ∷ b7 ∷ b8 ∷ b9 ∷ b10 ∷ b11 ∷ b12 ∷ []) h =
    absurd (ground arith)
read_packet-some (b0 ∷ b1 ∷ b2 ∷ b3 ∷ b4 ∷ b5 ∷ b6 ∷ b7 ∷ b8 ∷ b9 ∷ b10 ∷ b11 ∷ b12 ∷ b13 ∷ []) h =
    absurd (ground arith)
read_packet-some
      (b0 ∷ b1 ∷ b2 ∷ b3 ∷ b4 ∷ b5 ∷ b6 ∷ b7 ∷ b8 ∷ b9 ∷ b10 ∷ b11 ∷ b12 ∷ b13 ∷ b14 ∷ []) h =
    absurd (ground arith)
read_packet-some
      (b0 ∷ b1 ∷ b2 ∷ b3 ∷ b4 ∷ b5 ∷ b6 ∷ b7 ∷ b8 ∷ b9 ∷ b10 ∷ b11 ∷ b12 ∷ b13 ∷ b14 ∷ b15 ∷ []) h =
    absurd (ground arith)
read_packet-some
      (b0 ∷ b1 ∷ b2 ∷ b3 ∷ b4 ∷ b5 ∷ b6 ∷ b7 ∷ b8 ∷ b9 ∷ b10 ∷ b11 ∷ b12 ∷ b13 ∷ b14 ∷ b15 ∷ b16
        ∷ [])
      h =
    absurd (ground arith)
read_packet-some
      (b0 ∷ b1 ∷ b2 ∷ b3 ∷ b4 ∷ b5 ∷ b6 ∷ b7 ∷ b8 ∷ b9 ∷ b10 ∷ b11 ∷ b12 ∷ b13 ∷ b14 ∷ b15 ∷ b16
        ∷ b17 ∷ [])
      h =
    absurd (ground arith)
read_packet-some
      (b0 ∷ b1 ∷ b2 ∷ b3 ∷ b4 ∷ b5 ∷ b6 ∷ b7 ∷ b8 ∷ b9 ∷ b10 ∷ b11 ∷ b12 ∷ b13 ∷ b14 ∷ b15 ∷ b16
        ∷ b17 ∷ b18 ∷ [])
      h =
    absurd (ground arith)
read_packet-some
      (b0 ∷ b1 ∷ b2 ∷ b3 ∷ b4 ∷ b5 ∷ b6 ∷ b7 ∷ b8 ∷ b9 ∷ b10 ∷ b11 ∷ b12 ∷ b13 ∷ b14 ∷ b15 ∷ b16
        ∷ b17 ∷ b18 ∷ b19 ∷ [])
      h =
    absurd (ground arith)
read_packet-some
      (b0 ∷ b1 ∷ b2 ∷ b3 ∷ b4 ∷ b5 ∷ b6 ∷ b7 ∷ b8 ∷ b9 ∷ b10 ∷ b11 ∷ b12 ∷ b13 ∷ b14 ∷ b15 ∷ b16
        ∷ b17 ∷ b18 ∷ b19 ∷ b20 ∷ [])
      h =
    absurd (ground arith)
read_packet-some
      (b0 ∷ b1 ∷ b2 ∷ b3 ∷ b4 ∷ b5 ∷ b6 ∷ b7 ∷ b8 ∷ b9 ∷ b10 ∷ b11 ∷ b12 ∷ b13 ∷ b14 ∷ b15 ∷ b16
        ∷ b17 ∷ b18 ∷ b19 ∷ b20 ∷ b21 ∷ rest)
      h =
    (_, refl)

copy-Within :
    (net : Net) (i max_len : ℕ) (packet : RelayPacket) (buffer : Bytes) (m : RelayManager)
    → length buffer ≡ 4096
    → max_len ≤ 4074
    → Returns (Within max_len) (
        read_bytes payload_offset (min packet.payload_len max_len) buffer >>= λ copy.
        done (copied copy, m))
unfolding IsWithin
copy-Within net i max_len packet buffer m e h =
    rw (read_bytes_ok payload_offset (min packet.payload_len max_len) buffer (ground arith)) (
      Returns-done (Within max_len)
        (ground (arith, length-take (min packet.payload_len max_len) (drop payload_offset buffer))))

module _ (net : Net) (max_len n : ℕ) (buffer : Bytes) (size : length buffer ≡ 4096)
    (room : max_len ≤ 4074) where
  take_packet-Within :
      (i : ℕ) (m : RelayManager) → Returns (Within max_len) (take_packet net i max_len n buffer m)
  unfolding take_packet IsWithin
  take_packet-Within i m = Returns-if _ (ltb n packet_size) _ _ (Returns-done _ tt) (
      let ((packet, payload), e) = read_packet-some buffer (ground arith) in
      rw e (
        Returns-if _ (not (packet.magic == relay_magic)) _ _ (Returns-done _ tt) (
          Returns-if _ (not (packet.session_id == (session_at m i).session_id)) _ _
            (Returns-done _ tt)
            (Returns-if _ (packet.type == type_data) _ _
              (copy-Within net i max_len packet buffer _ size room) (Returns-done _ tt)))))

  -- With room for at most 4074 bytes, receiving always comes to an end within its arrays, whatever is in the buffer of 4096 bytes, and hands
  -- out at most as many bytes as there is room for.
  pub recv-Within :
      (peer_id : Bytes) (m : RelayManager)
      → Returns (Within max_len) (relay_recv net peer_id max_len (bytes n buffer) m)
  unfolding relay_recv IsWithin
  recv-Within peer_id m = Returns-if _ (max_len == 0) _ _ (Returns-done _ tt) (
      Returns-option _ (relay_find_session peer_id m) _ _ (Returns-done _ tt) λ i.
        Returns-if _ (is_established (session_at m i).state) _ _ (take_packet-Within i m)
          (Returns-done _ tt))
