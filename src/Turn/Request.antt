-- ===== src/Turn/Request.antt =====
-- turn_client.c: the bytes of the messages that are sent.
use Prim.Native.Nat.{bit_xor}
use orcashi.Prelude.{
  ℕ, zero, suc, ◌+◌, ◌/◌, ◌%◌, ◌^◌, ℤ, Bool, not, ◌&&◌, [], ◌∷◌, take, length, if◌then◌else◌,
}
use orcashi.CString.Text.{Bytes, is_empty}
use orcashi.CString.Address.{Ipv4}
use orcashi.P2p.Types.{u32}
use orcashi.Turn.Types.{TurnServerConfig}

-- `memcpy(buffer + offset, s, …)`, within the buffer.
unfoldable pub overwrite : ℕ → Bytes → Bytes → Bytes
overwrite offset s [] = []
overwrite zero [] (c ∷ buffer) = c ∷ buffer
overwrite zero (d ∷ s) (c ∷ buffer) = d ∷ overwrite zero s buffer
overwrite (suc offset) s (c ∷ buffer) = c ∷ overwrite offset s buffer

-- `htons` and `htonl` in memory.
abbrev pub be16 : ℕ → Bytes → Bytes
be16 n rest = (n / 2 ^ 8 % 256) ∷ (n % 256) ∷ rest

abbrev pub be32 : ℕ → Bytes → Bytes
be32 n rest = (n / 2 ^ 24 % 256) ∷ (n / 2 ^ 16 % 256) ∷ (n / 2 ^ 8 % 256) ∷ (n % 256) ∷ rest

abbrev pub magic_cookie : ℕ
magic_cookie = 554869826

-- The header of 20 bytes, its length still 0.
abbrev pub header : ℕ → Bytes → Bytes
header type random = be16 type (be16 0 (be32 magic_cookie random))

abbrev pub lifetime_attribute : ℕ → Bytes
lifetime_attribute lifetime = be16 13 (be16 4 (be32 lifetime []))

abbrev pub has_username : TurnServerConfig → Bool
has_username s = s.use_auth && not (is_empty s.username)

-- The message as far as it is sent: its length is that of the attributes that were written.
abbrev pub finish : ℕ → Bytes → Bytes
finish attributes_len buffer =
    take (20 + attributes_len) (overwrite 2 (be16 attributes_len []) buffer)

-- Behind the first attribute the code goes on at an offset from the start of the message, not of the attributes.
unfoldable pub turn_build_allocate_request : Bytes → Bytes → TurnServerConfig → Bytes
unfolding overwrite
turn_build_allocate_request random stack s =
    let first =
      overwrite 20 (be16 25 (be16 4 (17 ∷ 0 ∷ 0 ∷ 0 ∷ []))) (overwrite 0 (header 3 random) stack) in
    let second = overwrite 8 (lifetime_attribute s.lifetime) first in
    if has_username s
    then finish (20 + length s.username)
        (overwrite 16 (be16 6 (be16 (length s.username) s.username)) second)
    else finish 16 second

unfoldable pub refresh_request : Bytes → Bytes → TurnServerConfig → Bytes
unfolding overwrite
refresh_request random stack s =
    finish 8 (overwrite 20 (lifetime_attribute s.lifetime) (overwrite 0 (header 4 random) stack))

-- The address and the port in the order of the bytes in which the code puts them together.
abbrev pub peer_address : Ipv4 → ℤ → Bytes
peer_address (a, b, c, d) port =
    0
    ∷ 1
    ∷ bit_xor (u32 port / 2 ^ 8 % 256) 18
    ∷ bit_xor (u32 port % 256) 33
    ∷ bit_xor a 66
    ∷ bit_xor b 164
    ∷ bit_xor c 18
    ∷ bit_xor d 33
    ∷ []

-- The message of `turn_send`: here, too, the second attribute is written at an offset from the start of the message.
unfoldable pub send_indication : Bytes → Bytes → Ipv4 → ℤ → Bytes → Bytes
unfolding overwrite
send_indication random stack address port text = finish (16 + length text) (
    overwrite 12 (be16 19 (be16 (length text) text)) (
      overwrite 20 (be16 18 (be16 8 (peer_address address port)))
        (overwrite 0 (header 22 random) stack)))
