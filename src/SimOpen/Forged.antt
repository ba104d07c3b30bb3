-- ===== src/SimOpen/Forged.antt =====
-- A text that ends with the bytes of a packet, as the stream's second part is received.
use orcashi.Prelude.{
  ℕ, zero, suc, ◌^◌, ◌%◌, ◌≤◌, ◌<◌, ◌≡◌, refl, sym, ap, ◌∙◌, ℤ, not, ◌||◌, ◌==◌, if◌then◌else◌,
  if-false, Option-some, [], ◌∷◌, ◌++◌, ok, length, length-append, take, drop, take-append_self,
  drop-append_self, min, arith, inl, inr, subst,
}
use orcashi.CString.Text.{Bytes}
use orcashi.CString.Memory.{done, read_bytes, read_bytes_ok, bind-done}
use orcashi.P2p.Types.{u32}
use orcashi.SimOpen.Types.{established, is_established, is_syncing, Session, Net, bytes}
use orcashi.SimOpen.Packet.{
  SimPacket, sim_magic, packet_bytes, build_packet, read_packet, read-packet_bytes,
}
use orcashi.SimOpen.Session.{
  type_sync, type_sync_ack, type_data, take_sync, take_packet, take_received,
  simultaneous_open_send_packet, simultaneous_open_process_packet, simultaneous_open_recv,
}
use orcashi.SimOpen.Cases.{send_packet-cases}
use orcashi.SimOpen.Waiting.{take_packet-sync}
use orcashi.SimOpen.Texts.{arrived}

-- An established session with a token.
abbrev pub IsTaken : ℕ → Session → Type 0
IsTaken k s = (s.sync_token ≡ k) × (s.state ≡ established)

take_sync-IsTaken :
    (h : Net) (k : ℕ) (s : Session) → s.state ≡ established → IsTaken k (take_sync h k s)
take_sync-IsTaken h k s e =
    elim (send_packet-cases h type_sync_ack [] (record s { sync_token = k })) [
      | inl u ↦ after _ refl (ap (λ r. r.sync_token) u) (ap (λ r. r.state) u ∙ e)
      | inr u ↦ after _ refl (ap (λ r. r.sync_token) u) (ap (λ r. r.state) u ∙ e)
    ]
  where
    after :
        (s1 : Session)
        → (simultaneous_open_send_packet h type_sync_ack [] (record s { sync_token = k })).1 ≡ s1
        → s1.sync_token ≡ k
        → s1.state ≡ established
        → IsTaken k (take_sync h k s)
    after s1 w t a =
        subst (λ r. IsTaken k (if is_syncing r.state then record r { state = established } else r))
          (sym w)
          (subst (λ b. IsTaken k (if b then record s1 { state = established } else s1))
            (sym (ap is_syncing a)) (t, a))

-- The packet of data that is sent, with a packet of type SYNC at the end of its text.
abbrev pub sent : ℤ → ℕ → Bytes → ℤ → ℕ → Bytes
sent now token text later forged =
    build_packet now type_data token (text ++ build_packet later type_sync forged [])

-- A packet of type SYNC, received over an established connection.
recv-IsTaken :
    (h : Net) (max_len : ℕ) (later : ℤ) (k : ℕ) (stale : Bytes) (s : Session)
    → 0 < max_len
    → k < 2 ^ 32
    → s.state ≡ established
    → (s' : Session) × (simultaneous_open_recv h max_len
          (bytes (build_packet later type_sync k []))
          stale
          s
        ≡ done (ok, ([], s')))
      × IsTaken k s'
unfolding simultaneous_open_recv take_received simultaneous_open_process_packet
recv-IsTaken h max_len later k stale s room small opened = (
  take_packet h packet (record s { last_activity = h.now }),
  if-false (max_len == 0 || not (is_established s.state)) _ _ (rw opened (ground arith))
      ∙ Option-some (read_packet (packet_bytes later type_sync k 0 stale)) _ _
          (read-packet_bytes later type_sync k 0 stale (omega arith) small),
  subst (IsTaken k) (sym (take_packet-sync h packet (record s { last_activity = h.now }) refl))
      (take_sync-IsTaken h k (record s { last_activity = h.now }) opened),
)
  where
    packet : SimPacket
    packet = record {
      magic = sim_magic;
      version = 1;
      type = type_sync;
      sync_token = k;
      timestamp = u32 later;
      payload_len = 0;
    }

take-append_le : (n : ℕ) (xs ys : Bytes) → n ≤ length xs → take n (xs ++ ys) ≡ take n xs
take-append_le zero xs ys h = refl
take-append_le (suc n) [] ys h = absurd (omega arith)
take-append_le (suc n) (x ∷ xs) ys h = ap (◌∷◌ x) (take-append_le n xs ys (omega arith))

-- A text of 512 bytes ends with the 16 bytes of a packet of type SYNC with a token of the sender's
-- choice, and is sent in one packet. The receiver's session is established, it has room for 1 to 496
-- bytes at a time, and recv() gives it as many bytes of the stream as it asks for, 512 and then 16.
-- Then the first call hands out the beginning of the text, and the second takes the end of the text
-- for a packet: it hands out nothing, and the session has the token that stands in the text.
pub forged_token :
    (h g : Net) (max_len : ℕ) (now later : ℤ) (token forged : ℕ) (text stale stale' : Bytes)
    (s : Session)
    → token < 2 ^ 32
    → forged < 2 ^ 32
    → s.state ≡ established
    → 0 < max_len
    → max_len ≤ 496
    → length text ≡ 496
    → (s1 s2 : Session) × (simultaneous_open_recv h max_len
          (bytes (take 512 (sent now token text later forged)))
          stale
          s
        ≡ done (ok, (take max_len text, s1)))
      × (simultaneous_open_recv g max_len
            (bytes (drop 512 (sent now token text later forged)))
            stale'
            s1
          ≡ done (ok, ([], s2)))
      × (s2.sync_token ≡ forged)
      × (s2.state ≡ established)
forged_token h g max_len now later token forged text stale stale' s small small' opened room most
      e =
    let (s2, second, (t, o)) =
      recv-IsTaken g max_len later forged stale' (record s { last_activity = h.now }) room small'
        opened in
    (
      record s { last_activity = h.now },
      s2,
      first,
      ap
            (λ b.
              simultaneous_open_recv g max_len (bytes b) stale'
                (record s { last_activity = h.now }))
            (drop-append_self text (build_packet later type_sync forged []) 496 e)
          ∙ second,
      t,
      o,
    )
  where
    tail : Bytes
    tail = build_packet later type_sync forged []

    whole : length (text ++ tail) ≡ 512
    whole = omega (arith, length-append text tail, e)

    copied : min (length (text ++ tail) % 2 ^ 16) max_len ≡ max_len
    copied = omega (arith, whole, most)

    first :
        simultaneous_open_recv h max_len
          (bytes (take 512 (sent now token text later forged)))
          stale
          s
        ≡ done (ok, (take max_len text, record s { last_activity = h.now }))
    first =
        arrived h max_len now token (length (text ++ tail)) (take 496 (text ++ tail)) stale s small
          room opened
        ∙ bind-done
            (read_bytes 0 (min (length (text ++ tail) % 2 ^ 16) max_len)
              (take 496 (text ++ tail) ++ stale))
            (take max_len text) _
            (ap (λ b. read_bytes 0 (min (length (text ++ tail) % 2 ^ 16) max_len) (b ++ stale))
                (take-append_self text tail 496 e)
              ∙ ap (λ n. read_bytes 0 n (text ++ stale)) copied
              ∙ read_bytes_ok 0 max_len (text ++ stale)
                  (omega (arith, length-append text stale, e, most))
              ∙ ap done (take-append_le max_len text stale (omega (arith, e, most))))
