-- ===== src/Tests/Sealed.antt =====
-- The theorems on hexadecimal text, nonces and sealed messages at short inputs.
use orcashi.Prelude.{◌<◌, ◌≡◌, ◌≢◌, refl, true, some, [], ◌∷◌, ◌++◌, ◌>>=◌, replicate, arith}
use orcashi.CString.Text.{Bytes}
use orcashi.Crypto.Nonce.{increments, IsNonce, increments_differ}
use orcashi.Crypto.Message.{
  Message, zero_message, orca_aes_gcm_message_serialize, orca_aes_gcm_message_deserialize,
  message-round_trip,
}

abbrev last_nonce : Bytes
last_nonce = replicate 12 255

small : 255 < 256
small = omega arith

last_nonce-IsNonce : IsNonce last_nonce
last_nonce-IsNonce = (
  refl,
  (
    small,
    (
      small,
      (small, (small, (small, (small, (small, (small, (small, (small, (small, (small, tt)))))))))),
    ),
  ),
)

increments_differ_example : increments 1 last_nonce ≢ increments 3 last_nonce
increments_differ_example =
    increments_differ 1 3 last_nonce last_nonce-IsNonce (omega arith) (omega arith)

abbrev sealed : Message
sealed = record zero_message {
  nonce = last_nonce;
  ciphertext = some (1 ∷ 2 ∷ 3 ∷ []);
  ciphertext_len = 3;
  encrypted = true;
}

message-round_trip_example :
    (orca_aes_gcm_message_serialize true sealed >>= λ block.
    orca_aes_gcm_message_deserialize true (block ++ (9 ∷ [])))
    ≡ some (record zero_message {
      nonce = sealed.nonce;
      tag = sealed.tag;
      ciphertext = some (1 ∷ 2 ∷ 3 ∷ []);
      ciphertext_len = 3;
      encrypted = true;
    })
message-round_trip_example =
    message-round_trip sealed (1 ∷ 2 ∷ 3 ∷ []) (9 ∷ []) (refl, refl, refl, refl, refl, omega arith)
