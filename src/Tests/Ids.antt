-- ===== src/Tests/Ids.antt =====
-- The theorems on ids and mixed ids at the id 123 and the address 192.168.1.2.
use orcashi.Prelude.{◌≡◌, refl, pos, some, ◌>>=◌, arith}
use orcashi.CString.Text.{codes}
use orcashi.CString.Number.{
  show_nat, atoi, skip_space, read_int, read_nat, scan_digits, to_int, signed_nat,
}
use orcashi.CString.Address.{Ipv4, show_ipv4, IsIpv4, inet_pton, inet_pton-show_ipv4}
use orcashi.State.Ids.{strip}
use orcashi.MixedId.Codec.{mixed_id_encode, mixed_id_decode}
use orcashi.MixedId.Detect.{MixedType, mixed_id_detect_type, mixed_id_auto_parse}
use orcashi.MixedId.RoundTrip.{decode-encode}
use orcashi.MixedId.Ambiguous.{address_read_as_mixed_id}

abbrev home : Ipv4
home = (192, 168, 1, 2)

home-IsIpv4 : IsIpv4 home
home-IsIpv4 = (omega arith, omega arith, omega arith, omega arith)

number : atoi (strip 63 (codes "<123>")) ≡ pos 123
unfolding atoi strip skip_space read_int read_nat scan_digits to_int signed_nat
number = refl

decode-encode_example :
    (mixed_id_encode (codes "<123>") (show_ipv4 home) (pos 9000) 64 >>= mixed_id_decode)
    ≡ some (record { id = show_nat 123; ip = show_ipv4 home; port = pos 9000 })
decode-encode_example =
    decode-encode (codes "<123>") 123 home 9000 64 number (omega arith, omega arith) home-IsIpv4
      (omega arith, omega arith) (omega arith)

address_read_as_mixed_id_example :
    (mixed_id_detect_type (show_ipv4 home) ≡ MixedType.mixed)
    × (mixed_id_auto_parse (show_ipv4 home)
        ≡ some (record { id = show_nat 192; ip = show_ipv4 (0, 168, 0, 1); port = pos 2 }))
address_read_as_mixed_id_example =
    address_read_as_mixed_id home home-IsIpv4 (omega arith) (omega arith)

inet_pton-show_ipv4_example : inet_pton (show_ipv4 home) ≡ some home
inet_pton-show_ipv4_example = inet_pton-show_ipv4 home home-IsIpv4
