-- ===== src/SimOpen/Texts.antt =====
-- A text that is sent over an open connection, as it is received.
use orcashi.Prelude.{
  ℕ, ◌+◌, ◌^◌, ◌%◌, ◌≤◌, ◌<◌, ◌≡◌, refl, ap, ◌∙◌, ℤ, false, not, ◌||◌, [], ◌++◌, ◌==◌, ltb, ok,
  length, length-append, append_assoc, length-take, take, take-append_self, min, arith, le→ltb,
  Option-some, if-false,
}
use orcashi.CString.Text.{Bytes}
use orcashi.CString.Memory.{
  done, overrun, ◌>>=◌, read_bytes, read_bytes_ok, read_bytes_out, bind-done, bind_assoc,
}
use orcashi.SimOpen.Types.{established, is_established, Session, Net, bytes}
use orcashi.SimOpen.Packet.{packet_len, read_packet, build_packet, packet_bytes, read-packet_bytes}
use orcashi.SimOpen.Session.{type_data, take_received, simultaneous_open_recv}

-- A packet of data with its header, as it arrives together with what is in the buffer behind it.
module _ (h : Net) (max_len : ℕ) (now : ℤ) (token len : ℕ) (tail stale : Bytes) (s : Session)
    (small : token < 2 ^ 32) (some_room : 0 < max_len) (open_now : s.state ≡ established) where
  pub arrived :
      simultaneous_open_recv h max_len (bytes (packet_bytes now type_data token len tail)) stale s
      ≡ (read_bytes 0 (min (len % 2 ^ 16) max_len) (tail ++ stale) >>= λ copy.
          done (ok, (copy, record s { last_activity = h.now })))
  unfolding simultaneous_open_recv take_received
  arrived =
      if-false (max_len == 0 || not (is_established s.state)) _ _ ready
      ∙ if-false (ltb (length (packet_bytes now type_data token len tail)) packet_len) _ _
          (le→ltb _ packet_len (omega arith))
      ∙ Option-some (read_packet (packet_bytes now type_data token len (tail ++ stale))) _ _
          (read-packet_bytes now type_data token len (tail ++ stale) (omega arith) small)
      ∙ bind_assoc (read_bytes 0 (min (len % 2 ^ 16) max_len) (tail ++ stale)) _ _
    where
      ready : (max_len == 0 || not (is_established s.state)) ≡ false
      ready = rw open_now (ground arith)

-- A text of 1 to 496 bytes is received whole, and the session was heard of now, where what recv()
-- gives begins with its packet, has no more than 512 bytes, and the receiver has room for the text:
-- whatever stood in the receiver's buffer. What recv() has given behind the packet, as a second text
-- that arrived together with the first, is lost.
pub recv-build :
    (h : Net) (max_len : ℕ) (now : ℤ) (token : ℕ) (text more stale : Bytes) (s : Session)
    → token < 2 ^ 32
    → s.state ≡ established
    → 0 < length text
    → length text + length more ≤ 496
    → length text ≤ max_len
    → simultaneous_open_recv h max_len
        (bytes (build_packet now type_data token text ++ more))
        stale
        s
      ≡ done (ok, (text, record s { last_activity = h.now }))
recv-build h max_len now token text more stale s small opened some_text short room =
    arrived h max_len now token (length text) (text ++ more) stale s small (omega arith) opened
    ∙ bind-done (read_bytes 0 (min (length text % 2 ^ 16) max_len) ((text ++ more) ++ stale)) text _
        (ap (λ n. read_bytes 0 n ((text ++ more) ++ stale)) whole
          ∙ read_bytes_ok 0 (length text) ((text ++ more) ++ stale) inside
          ∙ ap (λ b. done (take (length text) b)) (append_assoc text more stale)
          ∙ ap done (take-append_self text (more ++ stale) (length text) refl))
  where
    whole : min (length text % 2 ^ 16) max_len ≡ length text
    whole = omega arith

    inside : 0 + length text ≤ length ((text ++ more) ++ stale)
    inside = omega (arith, length-append text more, length-append (text ++ more) stale)

-- The receiver takes at most 512 bytes at once and believes the length that the packet names: where
-- recv() gives the first 512 bytes of a packet whose text has more than 496 bytes and fewer than
-- 2^16, and the receiver has room for more than 496, it reads past the end of its buffer.
pub recv_long :
    (h : Net) (max_len : ℕ) (now : ℤ) (token : ℕ) (text : Bytes) (s : Session)
    → token < 2 ^ 32
    → s.state ≡ established
    → 496 < length text
    → length text < 2 ^ 16
    → 496 < max_len
    → simultaneous_open_recv h max_len
        (bytes (take 512 (build_packet now type_data token text)))
        []
        s
      ≡ overrun
recv_long h max_len now token text s small opened long short room =
    arrived h max_len now token (length text) (take 496 text) [] s small (omega arith) opened
    ∙ ap (λ r. r >>= λ copy. done (ok, (copy, record s { last_activity = h.now })))
        (read_bytes_out 0 (min (length text % 2 ^ 16) max_len) (take 496 text ++ []) outside)
  where
    outside : length (take 496 text ++ []) < 0 + min (length text % 2 ^ 16) max_len
    outside = omega (arith, length-append (take 496 text) [], length-take 496 text)
