-- ===== src/Crypto/Message.antt =====
-- aes_gcm.c: an encrypted message as one block of bytes.
use orcashi.Prelude.{
  ℕ, ◌+◌, ◌*◌, ◌/◌, ◌%◌, ◌^◌, ◌≤◌, ◌<◌, ◌≡◌, refl, sym, ap, ◌∙◌, Bool, true, false, Option, none,
  some, [], ◌∷◌, ◌++◌, arith, ltb, if◌then◌else◌, ◌>>=◌, length, replicate, take, drop, not, get_or,
  length-append, drop-append_self, take-append_self, take_all, append_assoc, le→ltb,
}
use orcashi.CString.Text.{Bytes}

abbrev pub nonce_len : ℕ
nonce_len = 12

abbrev pub tag_len : ℕ
tag_len = 16

-- `none` for a NULL pointer; a block of memory is its bytes.
pub record Message : Type 0 where
  pub key : Bytes
  pub nonce : Bytes
  pub tag : Bytes
  pub ciphertext : Option Bytes
  pub ciphertext_len : ℕ
  pub plaintext : Option Bytes
  pub plaintext_len : ℕ
  pub encrypted : Bool
  pub decrypted : Bool

-- `orca_aes_gcm_message_init`
abbrev pub zero_message : Message
zero_message = record {
  key = replicate 32 0;
  nonce = replicate 12 0;
  tag = replicate 16 0;
  ciphertext = none;
  ciphertext_len = 0;
  plaintext = none;
  plaintext_len = 0;
  encrypted = false;
  decrypted = false;
}

unfoldable pub orca_aes_gcm_message_free : Message → Message
orca_aes_gcm_message_free m = record m {
  ciphertext = none;
  plaintext = none;
  ciphertext_len = 0;
  plaintext_len = 0;
  encrypted = false;
  decrypted = false;
}

unfoldable pub orca_aes_gcm_message_clear : Message → Message
unfolding orca_aes_gcm_message_free
orca_aes_gcm_message_clear m = orca_aes_gcm_message_free m

-- `htonl` of the length, in memory order.
unfoldable pub htonl_bytes : ℕ → Bytes
htonl_bytes n = (n / 2 ^ 24 % 256) ∷ (n / 2 ^ 16 % 256) ∷ (n / 2 ^ 8 % 256) ∷ (n % 256) ∷ []

unfoldable pub ntohl_bytes : Bytes → ℕ
ntohl_bytes s = get_or s 0 0 * 2 ^ 24 + get_or s 1 0 * 2 ^ 16 + get_or s 2 0 * 2 ^ 8 + get_or s 3 0

-- `memcpy` of `n` bytes from a block.
abbrev pub copied : ℕ → Option Bytes → Bytes
copied n none = []
copied n (some s) = take n s

-- The first argument says whether `malloc` returns memory.
unfoldable pub orca_aes_gcm_message_serialize : Bool → Message → Option Bytes
unfolding htonl_bytes
orca_aes_gcm_message_serialize memory m =
    if not m.encrypted
    then none
    else if not memory
    then none
    else some (
        m.nonce
        ++ (m.tag
            ++ (htonl_bytes (m.ciphertext_len % 2 ^ 32) ++ copied m.ciphertext_len m.ciphertext)))

unfoldable pub orca_aes_gcm_message_deserialize : Bool → Bytes → Option Message
unfolding ntohl_bytes
orca_aes_gcm_message_deserialize memory buffer =
    let rest = drop (nonce_len + tag_len) buffer in
    let ciphertext_len = ntohl_bytes (take 4 rest) in
    if ltb (length buffer) (nonce_len + tag_len + 4)
    then none
    else if ltb (length buffer) (nonce_len + tag_len + 4 + ciphertext_len)
    then none
    else if not memory
    then none
    else some (record zero_message {
      nonce = take nonce_len buffer;
      tag = take tag_len (drop nonce_len buffer);
      ciphertext = some (take ciphertext_len (drop 4 rest));
      ciphertext_len = ciphertext_len;
      encrypted = true;
    })

-- What `orca_aes_gcm_encrypt_message` leaves: the sizes of the arrays, and a ciphertext of the
-- length that is noted, which fits 32 bits.
abbrev pub IsSealed : Message → Bytes → Type 0
IsSealed m ct =
    (m.encrypted ≡ true)
    × (length m.nonce ≡ nonce_len)
    × (length m.tag ≡ tag_len)
    × (m.ciphertext ≡ some ct)
    × (m.ciphertext_len ≡ length ct)
    × (length ct < 2 ^ 32)

drop_two :
    (s t u : Bytes)
    → length s ≡ nonce_len
    → length t ≡ tag_len
    → drop (nonce_len + tag_len) (s ++ (t ++ u)) ≡ u
drop_two s t u h k =
    ap (drop (nonce_len + tag_len)) (sym (append_assoc s t u))
    ∙ drop-append_self (s ++ t) u 28 (omega (arith, length-append s t, h, k))

-- A block that is made of the four parts is read as they are.
read_parts :
    (s t l ct extra : Bytes)
    → length s ≡ nonce_len
    → length t ≡ tag_len
    → length l ≡ 4
    → ntohl_bytes l ≡ length ct
    → orca_aes_gcm_message_deserialize true (s ++ (t ++ (l ++ (ct ++ extra))))
      ≡ some (record zero_message {
        nonce = s;
        tag = t;
        ciphertext = some ct;
        ciphertext_len = length ct;
        encrypted = true;
      })
unfolding orca_aes_gcm_message_deserialize
read_parts s t l ct extra hs ht hl hn = rw (
  drop_two s t (l ++ (ct ++ extra)) hs ht,
  take-append_self l (ct ++ extra) 4 hl,
  drop-append_self l (ct ++ extra) 4 hl,
  hn,
  take-append_self s (t ++ (l ++ (ct ++ extra))) nonce_len hs,
  drop-append_self s (t ++ (l ++ (ct ++ extra))) nonce_len hs,
  take-append_self t (l ++ (ct ++ extra)) tag_len ht,
  take-append_self ct extra (length ct) refl,
  long_enough 32 (omega arith),
  long_enough (32 + length ct) (omega arith),
)
  where
    size : length (s ++ (t ++ (l ++ (ct ++ extra)))) ≡ 32 + length ct + length extra
    size = omega (
      arith,
      length-append s (t ++ (l ++ (ct ++ extra))),
      length-append t (l ++ (ct ++ extra)),
      length-append l (ct ++ extra),
      length-append ct extra,
      hs,
      ht,
      hl,
    )

    long_enough :
        (n : ℕ)
        → n ≤ 32 + length ct + length extra
        → ltb (length (s ++ (t ++ (l ++ (ct ++ extra))))) n ≡ false
    long_enough n h = le→ltb _ n (omega (arith, size, h))

length-htonl : (n : ℕ) → length (htonl_bytes n) ≡ 4
unfolding htonl_bytes
length-htonl n = refl

ntohl-htonl : (n : ℕ) → n < 2 ^ 32 → ntohl_bytes (htonl_bytes (n % 2 ^ 32)) ≡ n
unfolding ntohl_bytes htonl_bytes
ntohl-htonl n h = omega arith

-- What is written for a sealed message.
serialize_parts :
    (m : Message) (ct : Bytes)
    → IsSealed m ct
    → orca_aes_gcm_message_serialize true m
      ≡ some (m.nonce ++ (m.tag ++ (htonl_bytes (length ct % 2 ^ 32) ++ ct)))
unfolding orca_aes_gcm_message_serialize
serialize_parts m ct (sealed, n, t, c, l, small) =
    rw (sealed, c, l, take_all (length ct) ct (omega arith))

glue :
    (s t l ct extra : Bytes) → (s ++ (t ++ (l ++ ct))) ++ extra ≡ s ++ (t ++ (l ++ (ct ++ extra)))
glue s t l ct extra =
    append_assoc s (t ++ (l ++ ct)) extra
    ∙ ap (λ x. s ++ x) (append_assoc t (l ++ ct) extra ∙ ap (λ x. t ++ x) (append_assoc l ct extra))

-- A sealed message, written to a block and read back, with any bytes behind it, has the same nonce,
-- tag and ciphertext; the key is not written, and the reading leaves zeros for it.
pub message-round_trip :
    (m : Message) (ct extra : Bytes)
    → IsSealed m ct
    → (orca_aes_gcm_message_serialize true m >>= λ block.
        orca_aes_gcm_message_deserialize true (block ++ extra))
      ≡ some (record zero_message {
        nonce = m.nonce;
        tag = m.tag;
        ciphertext = some ct;
        ciphertext_len = length ct;
        encrypted = true;
      })
message-round_trip m ct extra (sealed, n, t, c, l, small) =
    rw
      (
        serialize_parts m ct (sealed, n, t, c, l, small),
        glue m.nonce m.tag (htonl_bytes (length ct % 2 ^ 32)) ct extra,
      )
      (read_parts m.nonce m.tag (htonl_bytes (length ct % 2 ^ 32)) ct extra n t
        (length-htonl (length ct % 2 ^ 32)) (ntohl-htonl (length ct) small))
