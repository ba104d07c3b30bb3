-- ===== src/Crypto/Hex.antt =====
-- orca_crypto.c: bytes as hexadecimal text, and the wrappers of aes_gcm.c.
use orcashi.Prelude.{
  ℕ, ◌+◌, ◌-◌, ◌*◌, ◌/◌, ◌%◌, ◌<◌, ◌≡◌, refl, ap, false, ◌&&◌, ◌||◌, Option, none, some, [], ◌∷◌,
  arith, ltb, leb, ◌==◌, if◌then◌else◌, ◌>>=◌, length, All,
}
use orcashi.CString.Text.{Bytes, is_space, is_digit}

-- A digit of `%02x`.
unfoldable pub hex_digit : ℕ → ℕ
hex_digit n = if ltb n 10 then b'0' + n else b'a' + (n - 10)

unfoldable pub orca_bytes_to_hex : Bytes → Bytes
unfolding hex_digit
orca_bytes_to_hex [] = []
orca_bytes_to_hex (b ∷ bs) = hex_digit (b / 16) ∷ hex_digit (b % 16) ∷ orca_bytes_to_hex bs

-- A digit that strtol reads in base 16.
unfoldable pub hex_value : ℕ → Option ℕ
hex_value c =
    if is_digit c
    then some (c - b'0')
    else if leb b'a' c && leb c b'f'
    then some (c - b'a' + 10)
    else if leb b'A' c && leb c b'F'
    then some (c - b'A' + 10)
    else none

-- `(unsigned char)strtol(s, &end, 16)` of the two bytes `a` and `b`, where it stops at the end of
-- the text: two digits, or one behind a space or a sign. ("0x" is read as 0 and stops at the x.)
unfoldable pub hex_pair : ℕ → ℕ → Option ℕ
unfolding hex_value
hex_pair a b =
    if is_space a || a == b'+'
    then hex_value b
    else if a == b'-'
    then (hex_value b >>= λ v. some ((256 - v) % 256))
    else (hex_value a >>= λ h. hex_value b >>= λ l. some (h * 16 + l))

-- The loop of `orca_hex_to_bytes`.
unfoldable pub hex_pairs : Bytes → Option Bytes
unfolding hex_pair
hex_pairs [] = some []
hex_pairs (a ∷ []) = none
hex_pairs (a ∷ b ∷ s) = hex_pair a b >>= λ v. hex_pairs s >>= λ bs. some (v ∷ bs)

unfoldable pub orca_hex_to_bytes : Bytes → ℕ → Option Bytes
unfolding hex_pairs
orca_hex_to_bytes hex bytes_len = if length hex == bytes_len * 2 then hex_pairs hex else none

unfoldable pub orca_aes_gcm_key_from_hex : Bytes → Option Bytes
orca_aes_gcm_key_from_hex hex = orca_hex_to_bytes hex 32

unfoldable pub orca_aes_gcm_key_to_hex : Bytes → Bytes
orca_aes_gcm_key_to_hex = orca_bytes_to_hex

unfoldable pub orca_aes_gcm_nonce_from_hex : Bytes → Option Bytes
orca_aes_gcm_nonce_from_hex hex = orca_hex_to_bytes hex 12

unfoldable pub orca_aes_gcm_nonce_to_hex : Bytes → Bytes
orca_aes_gcm_nonce_to_hex = orca_bytes_to_hex

abbrev pub AreBytes : Bytes → Type 0
AreBytes = All (λ b. b < 256)

hex_value-digit : (n : ℕ) → n < 16 → hex_value (hex_digit n) ≡ some n
unfolding hex_value hex_digit
hex_value-digit n h = ground arith

not_space : (n : ℕ) → n < 16 → (is_space (hex_digit n) || hex_digit n == b'+') ≡ false
unfolding hex_digit
not_space n h = ground arith

not_minus : (n : ℕ) → n < 16 → (hex_digit n == b'-') ≡ false
unfolding hex_digit
not_minus n h = ground arith

hex_pair-digits :
    (h l : ℕ) → h < 16 → l < 16 → hex_pair (hex_digit h) (hex_digit l) ≡ some (h * 16 + l)
unfolding hex_pair
hex_pair-digits h l hh hl =
    rw (not_space h hh, not_minus h hh, hex_value-digit h hh, hex_value-digit l hl)

hex_pairs-to_hex : (bs : Bytes) → AreBytes bs → hex_pairs (orca_bytes_to_hex bs) ≡ some bs
unfolding hex_pairs orca_bytes_to_hex
hex_pairs-to_hex [] h = refl
hex_pairs-to_hex (b ∷ bs) (hb, h) =
    rw (hex_pair-digits (b / 16) (b % 16) (omega arith) (omega arith), hex_pairs-to_hex bs h)
      (ap (λ c. some (c ∷ bs)) (omega arith))

length-to_hex : (bs : Bytes) → length (orca_bytes_to_hex bs) ≡ length bs * 2
unfolding orca_bytes_to_hex
length-to_hex [] = omega arith
length-to_hex (b ∷ bs) = omega (arith, length-to_hex bs)

-- Writing bytes as hexadecimal text and reading the text for that many bytes gives them back.
hex-round_trip :
    (bs : Bytes) → AreBytes bs → orca_hex_to_bytes (orca_bytes_to_hex bs) (length bs) ≡ some bs
unfolding orca_hex_to_bytes
hex-round_trip bs h = rw (length-to_hex bs, hex_pairs-to_hex bs h) (ground arith)

-- A minus sign and one digit are read as a byte: the reading is meant to refuse all but digits,
-- and strtol takes a sign.
pub hex-sign_accepted :
    (v : ℕ) → v < 16 → orca_hex_to_bytes (b'-' ∷ hex_digit v ∷ []) 1 ≡ some ((256 - v) % 256 ∷ [])
unfolding orca_hex_to_bytes hex_pairs hex_pair
hex-sign_accepted v h = rw (hex_value-digit v h)
