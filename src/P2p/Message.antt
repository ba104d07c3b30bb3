-- ===== src/P2p/Message.antt =====
-- p2p_manager.c: the bytes of a message.
use orcashi.Prelude.{
  ℕ, ◌+◌, ◌*◌, ◌/◌, ◌%◌, ◌^◌, ◌<◌, ◌≡◌, ℤ, pos, negsuc, Option, none, some, ◌∷◌, ◌++◌, arith,
  length,
}
use orcashi.CString.Text.{Bytes}
use orcashi.P2p.Types.{Host, u32}

abbrev pub p2p_magic : ℕ
p2p_magic = 1330791233

pub record P2pMessage : Type 0 where
  pub magic : ℕ
  pub version : ℕ
  pub type : ℕ
  pub sequence : ℕ
  pub timestamp : ℕ
  pub payload_len : ℕ

-- A `uint32_t` in memory, the lowest byte first.
abbrev pub u32_bytes : ℕ → Bytes → Bytes
u32_bytes n rest = (n % 256) ∷ (n / 2 ^ 8 % 256) ∷ (n / 2 ^ 16 % 256) ∷ (n / 2 ^ 24 % 256) ∷ rest

abbrev pub u32_of : ℕ → ℕ → ℕ → ℕ → ℕ
u32_of a b c d = a + b * 2 ^ 8 + c * 2 ^ 16 + d * 2 ^ 24

abbrev pub header_len : ℕ
header_len = 20

-- `(P2PMessage*)buffer`: the header, and the bytes from `payload` on.
unfoldable pub read_message : Bytes → Option (P2pMessage × Bytes)
read_message
      (m0 ∷ m1 ∷ m2 ∷ m3 ∷ v ∷ t ∷ p0 ∷ p1 ∷ s0 ∷ s1 ∷ s2 ∷ s3 ∷ c0 ∷ c1 ∷ c2 ∷ c3 ∷ l0 ∷ l1 ∷ l2
        ∷ l3 ∷ rest) =
    some (
      record {
        magic = u32_of m0 m1 m2 m3;
        version = v;
        type = t;
        sequence = u32_of s0 s1 s2 s3;
        timestamp = u32_of c0 c1 c2 c3;
        payload_len = u32_of l0 l1 l2 l3;
      },
      rest,
    )
read_message _ = none

-- The buffer that `send_message` fills.
unfoldable pub build_message : Host → ℕ → Bytes → Bytes
build_message h type payload = u32_bytes p2p_magic (
    1
    ∷ (type % 256)
    ∷ h.padding.0
    ∷ h.padding.1
    ∷ u32_bytes (u32 h.now) (u32_bytes (u32 h.now) (u32_bytes (length payload % 2 ^ 32) payload)))

pub u32_of-u32_bytes :
    (n : ℕ)
    → n < 2 ^ 32
    → u32_of (n % 256) (n / 2 ^ 8 % 256) (n / 2 ^ 16 % 256) (n / 2 ^ 24 % 256) ≡ n
u32_of-u32_bytes n h = omega arith

pub u32-range : (t : ℤ) → u32 t < 2 ^ 32
unfolding u32
u32-range (pos n) = omega arith
u32-range (negsuc n) = omega arith

-- The header of that buffer, where the type and the length fit their fields.
abbrev pub built_header : Host → ℕ → Bytes → P2pMessage
built_header h type payload = record {
  magic = p2p_magic;
  version = 1;
  type = type;
  sequence = u32 h.now;
  timestamp = u32 h.now;
  payload_len = length payload;
}

-- A message that is built for a type and a payload that fit their fields, with any bytes behind
-- it, is read back with that type, the length of the payload, the time in both fields, and the
-- payload with those bytes behind it.
pub read-build :
    (h : Host) (type : ℕ) (payload rest : Bytes)
    → type < 256
    → length payload < 2 ^ 32
    → read_message (build_message h type payload ++ rest)
      ≡ some (built_header h type payload, payload ++ rest)
unfolding read_message build_message
read-build h type payload rest ht hp = λ i. some (
  record {
    magic = p2p_magic;
    version = 1;
    type = same_type i;
    sequence = same_time i;
    timestamp = same_time i;
    payload_len = same_len i;
  },
  payload ++ rest,
)
  where
    same_type : type % 256 ≡ type
    same_type = omega arith

    same_time :
        u32_of
          (u32 h.now % 256)
          (u32 h.now / 2 ^ 8 % 256)
          (u32 h.now / 2 ^ 16 % 256)
          (u32 h.now / 2 ^ 24 % 256)
        ≡ u32 h.now
    same_time = u32_of-u32_bytes (u32 h.now) (u32-range h.now)

    same_len :
        u32_of
          (length payload % 2 ^ 32 % 256)
          (length payload % 2 ^ 32 / 2 ^ 8 % 256)
          (length payload % 2 ^ 32 / 2 ^ 16 % 256)
          (length payload % 2 ^ 32 / 2 ^ 24 % 256)
        ≡ length payload
    same_len = omega arith
