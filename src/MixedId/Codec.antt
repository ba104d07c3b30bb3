-- ===== src/MixedId/Codec.antt =====
-- mixed_id.c: encoding, decoding and taking apart. A buffer that the caller gives is the text that
-- is left in it; -1 is `none`.
use orcashi.Prelude.{
  ℕ, ◌+◌, ◌-◌, ◌*◌, ◌/◌, ◌%◌, ◌^◌, ℤ, pos, negsuc, Bool, true, false, ◌&&◌, Option, none, some, ◌∷◌,
  ◌++◌, ltb, leb, if◌then◌else◌, ◌>>=◌,
}
use orcashi.CString.Text.{Bytes, fit, codes}
use orcashi.CString.Number.{show_int, read_int, atoi}
use orcashi.CString.Address.{dot, read_dot, inet_pton}
use orcashi.State.Ids.{strip}

-- The four numbers that sscanf reads by `"%d.%d.%d.%d"`; what follows the last is not looked at.
abbrev pub Four : Type 0
Four = ℤ × ℤ × ℤ × ℤ

unfoldable pub scan_four : Bytes → Option Four
scan_four s = do
  (a, s1) ← read_int s
  s2 ← read_dot s1
  (b, s3) ← read_int s2
  s4 ← read_dot s3
  (c, s5) ← read_int s4
  s6 ← read_dot s5
  (d, rest) ← read_int s6
  some (a, b, c, d)

-- `snprintf` of `"%d.%d.%d.%d"`.
unfoldable pub print_four : Four → Bytes
unfolding show_int
print_four (a, b, c, d) =
    show_int a ++ (dot ∷ (show_int b ++ (dot ∷ (show_int c ++ (dot ∷ show_int d)))))

abbrev pub in_range : ℕ → ℤ → Bool
in_range high (pos n) = ltb 0 n && leb n high
in_range high (negsuc n) = false

-- `(uint16_t)((high << 8) | low)`. Behind the test by inet_pton both are octets, so that `|` adds;
-- a negative one does not occur.
unfoldable pub pair_octets : ℤ → ℤ → ℕ
pair_octets (pos high) (pos low) = (high * 256 + low) % 2 ^ 16
pair_octets _ _ = 0

-- `x >> 8` and `x & 0xFF` on a 32-bit int in two's complement.
unfoldable pub high_octet : ℤ → ℤ
high_octet (pos n) = pos (n / 256)
high_octet (negsuc n) = negsuc (n / 256)

unfoldable pub low_octet : ℤ → ℤ
low_octet (pos n) = pos (n % 256)
low_octet (negsuc n) = pos (255 - n % 256)

unfoldable pub mixed_id_encode : Bytes → Bytes → ℤ → ℕ → Option Bytes
unfolding scan_four print_four pair_octets
mixed_id_encode id ip port out_size = do
  address ← inet_pton ip
  (o0, o1, o2, o3) ← scan_four ip
  let id_num = atoi (strip 63 id)
  (if in_range 999 id_num
      then some (
          fit out_size
            (print_four (id_num, pos (pair_octets o0 o1), pos (pair_octets o2 o3), port)))
      else none)

pub record Decoded : Type 0 where
  pub id : Bytes
  pub ip : Bytes
  pub port : ℤ

-- `"%d.%d.%d.%d"` of the octets of two pairs.
unfoldable pub print_pairs : ℤ → ℤ → Bytes
unfolding print_four high_octet low_octet
print_pairs pair1 pair2 =
    print_four (high_octet pair1, low_octet pair1, high_octet pair2, low_octet pair2)

-- `id_out` has 16 bytes, and `ip_out` has INET_ADDRSTRLEN, 16 too.
unfoldable pub mixed_id_decode : Bytes → Option Decoded
unfolding scan_four print_pairs
mixed_id_decode mixed = do
  (id_num, pair1, pair2, port) ← scan_four mixed
  (if in_range 999 id_num
      then (if in_range 65535 port
          then some (record {
            id = fit 16 (show_int id_num);
            ip = fit 16 (print_pairs pair1 pair2);
            port = port;
          })
          else none)
      else none)

unfoldable pub mixed_id_extract_id : Bytes → ℕ → Option Bytes
unfolding scan_four
mixed_id_extract_id mixed size = do
  (id_num, pair1, pair2, port) ← scan_four mixed
  some (fit size (show_int id_num))

unfoldable pub mixed_id_extract_ip : Bytes → ℕ → Option Bytes
unfolding scan_four print_pairs
mixed_id_extract_ip mixed size = do
  (id_num, pair1, pair2, port) ← scan_four mixed
  some (fit size (print_pairs pair1 pair2))

unfoldable pub mixed_id_extract_port : Bytes → Option ℤ
unfolding scan_four
mixed_id_extract_port mixed = do (id_num, pair1, pair2, port) ← scan_four mixed; some port

-- The text of the description, and whether the id could be decoded.
unfoldable pub mixed_id_describe : Bytes → ℕ → Bool × Bytes
unfolding mixed_id_decode
mixed_id_describe mixed size = elim (mixed_id_decode mixed) [
  | none ↦ (false, fit size (codes "Invalid Mixed ID: " ++ mixed))
  | some d ↦ (
    true,
    fit size (
        codes "ID: "
        ++ (d.id ++ (codes ", IP: " ++ (d.ip ++ (codes ", Port: " ++ show_int d.port))))),
  )
]
