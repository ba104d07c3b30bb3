-- ===== src/Relay/Packet.antt =====
-- friend_relay.c: the bytes of a packet.
use orcashi.Prelude.{ℕ, ◌+◌, ◌*◌, ◌/◌, ◌%◌, ◌^◌, Option, none, some, [], ◌∷◌, ◌++◌, length}
use orcashi.CString.Text.{Bytes}
use orcashi.P2p.Types.{u32}
use orcashi.P2p.Message.{u32_bytes, u32_of}
use orcashi.Relay.Types.{Net}

abbrev pub relay_magic : ℕ
relay_magic = 1380273241

pub record RelayPacket : Type 0 where
  pub magic : ℕ
  pub version : ℕ
  pub type : ℕ
  pub session_id : ℕ
  pub payload_len : ℕ

-- `sizeof(RelayPacket)`; the payload starts two bytes before.
abbrev pub packet_size : ℕ
packet_size = 24

abbrev pub payload_offset : ℕ
payload_offset = 22

-- `(RelayPacket*)buffer`, and the bytes from `payload` on. The sequence and the flags are read by nothing.
unfoldable pub read_packet : Bytes → Option (RelayPacket × Bytes)
read_packet
      (m0 ∷ m1 ∷ m2 ∷ m3 ∷ v ∷ t ∷ p0 ∷ p1 ∷ i0 ∷ i1 ∷ i2 ∷ i3 ∷ s0 ∷ s1 ∷ s2 ∷ s3 ∷ f0 ∷ f1 ∷ f2
        ∷ f3 ∷ l0 ∷ l1 ∷ rest) =
    some (
      record {
        magic = u32_of m0 m1 m2 m3;
        version = v;
        type = t;
        session_id = u32_of i0 i1 i2 i3;
        payload_len = l0 + l1 * 2 ^ 8;
      },
      rest,
    )
read_packet _ = none

-- The buffer that `relay_send_packet` fills: two bytes behind the payload are sent as they are.
unfoldable pub build_packet : Net → ℕ → ℕ → Bytes → Bytes
build_packet net type session_id payload = u32_bytes relay_magic (
    1
    ∷ (type % 256)
    ∷ net.padding.0
    ∷ net.padding.1
    ∷ u32_bytes (session_id % 2 ^ 32) (
        u32_bytes (u32 net.now) (
          u32_bytes 0 (
            (length payload % 256)
            ∷ (length payload / 2 ^ 8 % 256)
            ∷ (payload ++ (net.tail.0 ∷ net.tail.1 ∷ []))))))
