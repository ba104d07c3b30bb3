-- ===== src/SimOpen/Cases.antt =====
-- What sending, and waiting for a packet, can do to a session.
use orcashi.Prelude.{
  ℕ, ◌≡◌, refl, Bool, true, false, not, ◌||◌, Option, none, some, [], ◌∷◌, ◌++◌, ◌==◌, ltb,
  if◌then◌else◌, Code, ok, err, length, ◌⊎◌, inl, inr,
}
use orcashi.CString.Text.{Bytes}
use orcashi.SimOpen.Types.{Session, Net, bytes}
use orcashi.SimOpen.Packet.{SimPacket, sim_magic, packet_len, read_packet, build_packet}
use orcashi.SimOpen.Session.{
  simultaneous_open_send_packet, take_packet, simultaneous_open_process_packet,
  simultaneous_open_wait_for_sync,
}

abbrev pub session : Code × Session → Session
session r = r.1

pub send_packet-cases :
    (h : Net) (type : ℕ) (payload : Bytes) (s : Session)
    → ((simultaneous_open_send_packet h type payload s).1 ≡ s)
      ⊎ ((simultaneous_open_send_packet h type payload s).1 ≡ record s {
        sent = s.sent ++ (build_packet h.now type s.sync_token payload ∷ []);
        last_activity = h.now;
      })
unfolding simultaneous_open_send_packet
send_packet-cases h type payload s = go s.socket_fd (not h.memory || not h.sends)
  where
    out : Session
    out = record s {
      sent = s.sent ++ (build_packet h.now type s.sync_token payload ∷ []);
      last_activity = h.now;
    }

    go :
        (o : Option ℕ) (b : Bool)
        → (session (elim o [ none ↦ (err, s) | some fd ↦ if b then (err, s) else (ok, out) ]) ≡ s)
          ⊎ (session (elim o [ none ↦ (err, s) | some fd ↦ if b then (err, s) else (ok, out) ])
              ≡ out)
    go none b = inl refl
    go (some fd) true = inl refl
    go (some fd) false = inr refl

process-cases :
    (h : Net) (packet : SimPacket) (len : ℕ) (s : Session)
    → ((simultaneous_open_process_packet h packet len s).1 ≡ s)
      ⊎ ((simultaneous_open_process_packet h packet len s).1
          ≡ take_packet h packet (record s { last_activity = h.now }))
unfolding simultaneous_open_process_packet
process-cases h packet len s =
    go (ltb len packet_len || (not (packet.magic == sim_magic) || not (packet.version == 1)))
  where
    taken : Session
    taken = take_packet h packet (record s { last_activity = h.now })

    go :
        (b : Bool)
        → (session (if b then (err, s) else (ok, taken)) ≡ s)
          ⊎ (session (if b then (err, s) else (ok, taken)) ≡ taken)
    go true = inl refl
    go false = inr refl

-- Bytes change nothing, or hold a packet that the session takes.
pub wait-cases :
    (h : Net) (b : Bytes) (s : Session)
    → ((simultaneous_open_wait_for_sync h (bytes b) s).1 ≡ s)
      ⊎ ((packet : SimPacket) × ((payload : Bytes) × ((read_packet b ≡ some (packet, payload))
              × ((simultaneous_open_wait_for_sync h (bytes b) s).1
                  ≡ take_packet h packet (record s { last_activity = h.now })))))
unfolding simultaneous_open_wait_for_sync
wait-cases h b s = go s.socket_fd (read_packet b) refl
  where
    waited : Option ℕ → Option (SimPacket × Bytes) → Session
    waited o r = session (elim o [
      | none ↦ (err, s)
      | some fd ↦ elim r [
        | none ↦ (err, s)
        | some (packet, payload) ↦ simultaneous_open_process_packet h packet (length b) s
      ]
    ])

    go :
        (o : Option ℕ) (r : Option (SimPacket × Bytes))
        → read_packet b ≡ r
        → (waited o r ≡ s)
          ⊎ ((packet : SimPacket) × ((payload : Bytes) × ((read_packet b ≡ some (packet, payload))
                  × (waited o r ≡ take_packet h packet (record s { last_activity = h.now })))))
    go none r e = inl refl
    go (some fd) none e = inl refl
    go (some fd) (some (packet, payload)) e = elim (process-cases h packet (length b) s) [
      | inl q ↦ inl q
      | inr q ↦ inr (packet, (payload, (e, q)))
    ]
