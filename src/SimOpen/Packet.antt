-- ===== src/SimOpen/Packet.antt =====
-- simultaneous_open.c: the bytes of a packet.
use orcashi.Prelude.{
  ℕ, ◌+◌, ◌*◌, ◌/◌, ◌%◌, ◌^◌, ◌<◌, ◌≡◌, ℤ, Option, none, some, ◌∷◌, arith, length,
}
use orcashi.CString.Text.{Bytes}
use orcashi.P2p.Types.{u32}
use orcashi.P2p.Message.{u32_bytes, u32_of, u32_of-u32_bytes, u32-range}

abbrev pub sim_magic : ℕ
sim_magic = 1397312847

pub record SimPacket : Type 0 where
  pub magic : ℕ
  pub version : ℕ
  pub type : ℕ
  pub sync_token : ℕ
  pub timestamp : ℕ
  pub payload_len : ℕ

abbrev pub packet_len : ℕ
packet_len = 16

-- `(SimPacket*)buffer`, and the bytes from `payload` on; there is no packet in fewer than 16 bytes.
unfoldable pub read_packet : Bytes → Option (SimPacket × Bytes)
read_packet (m0 ∷ m1 ∷ m2 ∷ m3 ∷ v ∷ t ∷ s0 ∷ s1 ∷ s2 ∷ s3 ∷ c0 ∷ c1 ∷ c2 ∷ c3 ∷ l0 ∷ l1 ∷ rest) =
    some (
      record {
        magic = u32_of m0 m1 m2 m3;
        version = v;
        type = t;
        sync_token = u32_of s0 s1 s2 s3;
        timestamp = u32_of c0 c1 c2 c3;
        payload_len = l0 + l1 * 2 ^ 8;
      },
      rest,
    )
read_packet _ = none

-- A packet that names a length, and what is behind its header.
abbrev pub packet_bytes : ℤ → ℕ → ℕ → ℕ → Bytes → Bytes
packet_bytes now type token len payload = u32_bytes sim_magic (
    1
    ∷ (type % 256)
    ∷ u32_bytes (token % 2 ^ 32)
        (u32_bytes (u32 now) ((len % 256) ∷ (len / 2 ^ 8 % 256) ∷ payload)))

-- The buffer that `simultaneous_open_send_packet` fills.
abbrev pub build_packet : ℤ → ℕ → ℕ → Bytes → Bytes
build_packet now type token payload = packet_bytes now type token (length payload) payload

-- A packet for a type and a token that fit their fields is read back with them, with its length
-- modulo 2^16, and with what is behind its header.
pub read-packet_bytes :
    (now : ℤ) (type token len : ℕ) (payload : Bytes)
    → type < 256
    → token < 2 ^ 32
    → read_packet (packet_bytes now type token len payload)
      ≡ some (
        record {
          magic = sim_magic;
          version = 1;
          type = type;
          sync_token = token;
          timestamp = u32 now;
          payload_len = len % 2 ^ 16;
        },
        payload,
      )
unfolding read_packet
read-packet_bytes now type token len payload ht hk = λ i. some (
  record {
    magic = sim_magic;
    version = 1;
    type = same_type i;
    sync_token = same_token i;
    timestamp = u32_of-u32_bytes (u32 now) (u32-range now) i;
    payload_len = same_len i;
  },
  payload,
)
  where
    same_type : type % 256 ≡ type
    same_type = omega arith

    same_token :
        u32_of
          (token % 2 ^ 32 % 256)
          (token % 2 ^ 32 / 2 ^ 8 % 256)
          (token % 2 ^ 32 / 2 ^ 16 % 256)
          (token % 2 ^ 32 / 2 ^ 24 % 256)
        ≡ token
    same_token = omega arith

    same_len : len % 256 + len / 2 ^ 8 % 256 * 2 ^ 8 ≡ len % 2 ^ 16
    same_len = omega arith
