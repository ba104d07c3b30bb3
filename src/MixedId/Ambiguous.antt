-- ===== src/MixedId/Ambiguous.antt =====
-- What `mixed_id_detect_type` says of mixed ids and of addresses.
use orcashi.Prelude.{ℕ, suc, ◌+◌, ◌≤◌, ◌<◌, ◌≡◌, refl, ◌∙◌, pos, true, some, [], ◌∷◌, ◌++◌, arith}
use orcashi.CString.Text.{Bytes}
use orcashi.CString.Number.{digits, digits-AllDigits, AllDigits, show_nat}
use orcashi.CString.Address.{dot, Ipv4, show_ipv4, IsIpv4, inet_pton-show_ipv4}
use orcashi.MixedId.Codec.{print_four, Decoded, mixed_id_decode}
use orcashi.MixedId.Detect.{
  MixedType, mixed_id_is_ip, mixed_id_is_valid, count_dots, mixed_id_detect_type,
  mixed_id_auto_parse,
}
use orcashi.MixedId.Scan.{atoi-show_nat, show_ipv4-print_four}
use orcashi.MixedId.RoundTrip.{mixed_text, packed, decode-mixed_text}

count_dots-append : (s t : Bytes) → count_dots (s ++ t) ≡ count_dots s + count_dots t
unfolding count_dots
count_dots-append [] t = omega arith
count_dots-append (c ∷ s) t = omega (arith, count_dots-append s t)

count_dots_digits : (s : Bytes) → AllDigits s → count_dots s ≡ 0
unfolding count_dots
count_dots_digits [] h = refl
count_dots_digits (c ∷ s) (d, h) = ground (arith, count_dots_digits s h)

count_dots-show_nat : (n : ℕ) → count_dots (show_nat n) ≡ 0
unfolding show_nat
count_dots-show_nat n = count_dots_digits (digits (suc n) n) (digits-AllDigits (suc n) n)

count_dots-dot : (s : Bytes) → count_dots (dot ∷ s) ≡ suc (count_dots s)
unfolding count_dots
count_dots-dot s = omega arith

three_dots : (a b c d : ℕ) → count_dots (print_four (pos a, pos b, pos c, pos d)) ≡ 3
unfolding print_four
three_dots a b c d = simp (count_dots-append, count_dots-dot, count_dots-show_nat) (omega arith)

-- What decodes to a good id, port and address is detected as a mixed id.
detect_decoded :
    (s : Bytes) (n : ℕ) (a : Ipv4) (port : ℕ)
    → (0 < n) × (n ≤ 999)
    → IsIpv4 a
    → (0 < port) × (port ≤ 65535)
    → count_dots s ≡ 3
    → mixed_id_decode s ≡ some (record { id = show_nat n; ip = show_ipv4 a; port = pos port })
    → mixed_id_detect_type s ≡ MixedType.mixed
unfolding mixed_id_detect_type
detect_decoded s n a port hn ha hp dots e =
    let valid : mixed_id_is_valid s ≡ true =
      unfold mixed_id_is_valid in
      rw
        (
          e,
          mixed_id_is_valid,
          atoi-show_nat n (omega arith),
          mixed_id_is_ip,
          inet_pton-show_ipv4 a ha,
        )
        (ground arith) in
    ground (arith, dots, valid)

-- Every mixed id of an id up to 999, an address and a port is detected as a mixed id.
pub detect-mixed_text :
    (n : ℕ) (a : Ipv4) (port : ℕ)
    → (0 < n) × (n ≤ 999)
    → IsIpv4 a
    → (0 < port) × (port ≤ 65535)
    → mixed_id_detect_type (mixed_text n a port) ≡ MixedType.mixed
detect-mixed_text n a port hn ha hp =
    detect_decoded (mixed_text n a port) n a port hn ha hp
      (three_dots n (packed a.0 a.1) (packed a.2 a.3) port) (decode-mixed_text n a port hn ha hp)

-- The address `0.b.0.c` packs to the numbers `b` and `c`.
address_text : (a : Ipv4) → IsIpv4 a → show_ipv4 a ≡ mixed_text a.0 (0, a.1, 0, a.2) a.3
address_text (a, b, c, d) (ha, hb, hc, hd) =
    show_ipv4-print_four (a, b, c, d) ∙ same (packed 0 b) (packed 0 c) (omega arith) (omega arith)
  where
    same :
        (p q : ℕ)
        → b ≡ p
        → c ≡ q
        → print_four (pos a, pos b, pos c, pos d) ≡ print_four (pos a, pos p, pos q, pos d)
    same p q e f = λ i. print_four (pos a, pos (e i), pos (f i), pos d)

parsed_decoded :
    (s : Bytes) (d : Decoded)
    → mixed_id_detect_type s ≡ MixedType.mixed
    → mixed_id_decode s ≡ some d
    → mixed_id_auto_parse s ≡ some d
unfolding mixed_id_auto_parse
parsed_decoded s d e f = rw (mixed_id_auto_parse, e) f

-- An IPv4 address whose first and last octets are not zero is detected as a mixed id, and
-- parsed as the peer whose id is the first octet, at the address made of the two middle
-- octets and at the port that is the last.
pub address_read_as_mixed_id :
    (a : Ipv4)
    → IsIpv4 a
    → 0 < a.0
    → 0 < a.3
    → (mixed_id_detect_type (show_ipv4 a) ≡ MixedType.mixed)
      × (mixed_id_auto_parse (show_ipv4 a)
          ≡ some (record { id = show_nat a.0; ip = show_ipv4 (0, a.1, 0, a.2); port = pos a.3 }))
address_read_as_mixed_id (a, b, c, d) (ha, hb, hc, hd) h k =
    let middle : IsIpv4 (0, b, 0, c) = ((omega arith), hb, (omega arith), hc) in
    let detected = detect-mixed_text a (0, b, 0, c) d (h, omega arith) middle (k, omega arith) in
    let decoded = decode-mixed_text a (0, b, 0, c) d (h, omega arith) middle (k, omega arith) in
    rw (address_text (a, b, c, d) (ha, hb, hc, hd))
      (detected, parsed_decoded (mixed_text a (0, b, 0, c) d) _ detected decoded)
