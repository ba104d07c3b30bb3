-- ===== src/MixedId/RoundTrip.antt =====
-- Encoding and then decoding.
use orcashi.Prelude.{
  ℕ, ◌+◌, ◌-◌, ◌*◌, ◌/◌, ◌%◌, ◌^◌, ◌≤◌, ◌<◌, ◌≡◌, sym, ap, ◌∙◌, pos, true, none, some, arith, ◌>>=◌,
  length, take_all,
}
use orcashi.CString.Text.{Bytes, fit}
use orcashi.CString.Number.{show_nat, show_int, atoi}
use orcashi.CString.Address.{Ipv4, show_ipv4, IsIpv4, inet_pton-show_ipv4}
use orcashi.State.Ids.{strip}
use orcashi.MixedId.Codec.{print_four, in_range, print_pairs, mixed_id_encode, mixed_id_decode}
use orcashi.MixedId.Scan.{
  scan_four-print_four, length-print_four, length-show_nat, show_ipv4-print_four,
}

-- Two octets as a pair.
abbrev pub packed : ℕ → ℕ → ℕ
packed high low = (high * 256 + low) % 2 ^ 16

-- The mixed id of an id, an address and a port.
abbrev pub mixed_text : ℕ → Ipv4 → ℕ → Bytes
mixed_text n a port = print_four (pos n, pos (packed a.0 a.1), pos (packed a.2 a.3), pos port)

pub print_pairs-packed :
    (a : Ipv4) → IsIpv4 a → print_pairs (pos (packed a.0 a.1)) (pos (packed a.2 a.3)) ≡ show_ipv4 a
unfolding print_pairs
print_pairs-packed (a, b, c, d) (ha, hb, hc, hd) =
    same_four (packed a b / 256) (packed a b % 256) (packed c d / 256) (packed c d % 256) a b c d
      (omega arith)
    ∙ sym (show_ipv4-print_four (a, b, c, d))
  where
    same_four :
        (p q r s a b c d : ℕ)
        → (p ≡ a) × (q ≡ b) × (r ≡ c) × (s ≡ d)
        → print_four (pos p, pos q, pos r, pos s) ≡ print_four (pos a, pos b, pos c, pos d)
    same_four p q r s a b c d (e, f, g, h) =
        λ i. print_four (pos (e i), pos (f i), pos (g i), pos (h i))

in_range_pos : (high n : ℕ) → 0 < n → n ≤ high → in_range high (pos n) ≡ true
in_range_pos high n h k = ground arith

pub length-show_ipv4 : (a : Ipv4) → IsIpv4 a → length (show_ipv4 a) ≤ 15
length-show_ipv4 (a, b, c, d) (ha, hb, hc, hd) =
    rw (show_ipv4-print_four (a, b, c, d)) (length-print_four 2 2 2 2 a b c d (omega arith))

fit_all : (size : ℕ) (s : Bytes) → length s < size → fit size s ≡ s
fit_all size s h = take_all (size - 1) s (omega arith)

pub decode-mixed_text :
    (n : ℕ) (a : Ipv4) (port : ℕ)
    → (0 < n) × (n ≤ 999)
    → IsIpv4 a
    → (0 < port) × (port ≤ 65535)
    → mixed_id_decode (mixed_text n a port)
      ≡ some (record { id = show_nat n; ip = show_ipv4 a; port = pos port })
unfolding mixed_id_decode show_int
decode-mixed_text n a port (n_pos, n_max) ha (p_pos, p_max) = rw (
  scan_four-print_four n (packed a.0 a.1) (packed a.2 a.3) port (omega arith),
  in_range_pos 999 n n_pos n_max,
  in_range_pos 65535 port p_pos p_max,
  fit_all 16 (show_nat n) (omega (arith, length-show_nat 2 n (omega arith))),
  print_pairs-packed a ha,
  fit_all 16 (show_ipv4 a) (omega (arith, length-show_ipv4 a ha)),
)

pub encode-mixed_text :
    (id : Bytes) (n : ℕ) (a : Ipv4) (port : ℕ) (size : ℕ)
    → atoi (strip 63 id) ≡ pos n
    → (0 < n) × (n ≤ 999)
    → IsIpv4 a
    → port ≤ 65535
    → 22 ≤ size
    → mixed_id_encode id (show_ipv4 a) (pos port) size ≡ some (mixed_text n a port)
unfolding mixed_id_encode
encode-mixed_text id n a port size e (n_pos, n_max) ha p_max room =
    rw
      (
        inet_pton-show_ipv4 a ha,
        show_ipv4-print_four a,
        scan_four-print_four a.0 a.1 a.2 a.3 (omega arith),
        e,
        in_range_pos 999 n n_pos n_max,
      )
      (ap some (
        fit_all size (mixed_text n a port) (
          omega (
            arith,
            length-print_four 2 4 4 4 n (packed a.0 a.1) (packed a.2 a.3) port (omega arith),
          ))))

-- An id whose number is from 1 to 999, bracketed or not, a dotted address and a port from 1 to 65535
-- are encoded into a buffer of 22 bytes or more, and decoding gives back the number, the address and
-- the port.
pub decode-encode :
    (id : Bytes) (n : ℕ) (a : Ipv4) (port : ℕ) (size : ℕ)
    → atoi (strip 63 id) ≡ pos n
    → (0 < n) × (n ≤ 999)
    → IsIpv4 a
    → (0 < port) × (port ≤ 65535)
    → 22 ≤ size
    → (mixed_id_encode id (show_ipv4 a) (pos port) size >>= mixed_id_decode)
      ≡ some (record { id = show_nat n; ip = show_ipv4 a; port = pos port })
decode-encode id n a port size e hn ha hp room =
    rw (encode-mixed_text id n a port size e hn ha hp.1 room) (decode-mixed_text n a port hn ha hp)

-- `mixed_id_encode` does not look at the port: a port of 0 is encoded, and the text that it makes is
-- one that `mixed_id_decode` refuses.
pub encode_port_zero :
    (id : Bytes) (n : ℕ) (a : Ipv4) (size : ℕ)
    → atoi (strip 63 id) ≡ pos n
    → (0 < n) × (n ≤ 999)
    → IsIpv4 a
    → 22 ≤ size
    → (mixed_id_encode id (show_ipv4 a) (pos 0) size ≡ some (mixed_text n a 0))
      × (mixed_id_decode (mixed_text n a 0) ≡ none)
unfolding mixed_id_decode
encode_port_zero id n a size e hn ha room = (
  encode-mixed_text id n a 0 size e hn ha (omega arith) room,
  rw (
    scan_four-print_four n (packed a.0 a.1) (packed a.2 a.3) 0 (omega arith),
    in_range_pos 999 n hn.0 hn.1,
  ),
)
