-- ===== src/SimOpen/Holds.antt =====
-- Sessions that hold on to one token.
use orcashi.Prelude.{
  ℕ, ◌^◌, ◌<◌, ◌≡◌, sym, ap, ◌∙◌, subst, ℤ, Bool, true, false, not, ◌||◌, none, some, [], ◌==◌,
  if◌then◌else◌, length, All, All-append, arith, inl, inr, Bool-cases,
}
use orcashi.CString.Text.{Bytes, is_empty}
use orcashi.SimOpen.Types.{established, is_established, is_syncing, Session, Net, bytes}
use orcashi.SimOpen.Packet.{SimPacket, read_packet, build_packet, read-packet_bytes}
use orcashi.SimOpen.Session.{
  simultaneous_open_send_packet, take_sync, take_sync_ack, take_packet,
  simultaneous_open_wait_for_sync, simultaneous_open_send, type_sync_ack, type_sync_confirm,
  type_data,
}
use orcashi.SimOpen.Cases.{send_packet-cases, wait-cases}

-- The packet in the bytes, if there is one, has the token.
abbrev pub Carries : ℕ → Bytes → Type 0
Carries t b =
    (packet : SimPacket) (payload : Bytes)
    → read_packet b ≡ some (packet, payload)
    → packet.sync_token ≡ t

pub some_injective {ℓ} : {A : Type ℓ} {a b : A} → some a ≡ some b → a ≡ b
some_injective {a} e = ap (λ o. elim o [ none ↦ a | some x ↦ x ]) e

built-Carries :
    (now : ℤ) (type t : ℕ) (payload : Bytes)
    → type < 256
    → t < 2 ^ 32
    → Carries t (build_packet now type t payload)
built-Carries now type t payload ht hk packet rest e = sym (
    ap (λ r. r.0.sync_token)
      (some_injective (sym (read-packet_bytes now type t (length payload) payload ht hk) ∙ e)))

pub nothing-Carries : (t : ℕ) → Carries t []
unfolding read_packet
nothing-Carries t packet payload e = cc

-- The session has the token, as everything that it has sent.
pub record Holds (t : ℕ) (s : Session) : Type 0 where
  pub token : s.sync_token ≡ t
  pub said : All (Carries t) s.sent

module _ {t : ℕ} (small : t < 2 ^ 32) (h : Net) where
  pub Holds-if : (b : Bool) (x y : Session) → Holds t x → Holds t y → Holds t (if b then x else y)
  Holds-if true x y u v = u
  Holds-if false x y u v = v

  pub sent-Holds :
      (type : ℕ) (payload : Bytes) {s : Session}
      → type < 256
      → Holds t s
      → Holds t (simultaneous_open_send_packet h type payload s).1
  sent-Holds type payload {s} ht v = elim (send_packet-cases h type payload s) [
    | inl e ↦ subst (Holds t) (sym e) v
    | inr e ↦
        subst (Holds t) (sym e)
          (record { token = v.token; said = All-append (Carries t) s.sent _ v.said (carried, tt) })
  ]
    where
      carried : Carries t (build_packet h.now type s.sync_token payload)
      carried =
          subst (λ k. Carries t (build_packet h.now type k payload)) (sym v.token)
            (built-Carries h.now type t payload ht small)

  pub take_sync-Holds :
      (k : ℕ) (s : Session) → k ≡ t → All (Carries t) s.sent → Holds t (take_sync h k s)
  take_sync-Holds k s e said = settle (
      sent-Holds type_sync_ack [] {s = record s { sync_token = k }} (omega arith)
        (record { token = e; said = said }))
    where
      settle :
          {s1 : Session}
          → Holds t s1
          → Holds t (if is_syncing s1.state then record s1 { state = established } else s1)
      settle {s1} w =
          Holds-if (is_syncing s1.state) _ _ (record { token = w.token; said = w.said }) w

  take_packet-Holds :
      (packet : SimPacket) {s : Session}
      → packet.sync_token ≡ t
      → Holds t s
      → Holds t (take_packet h packet s)
  unfolding take_packet
  take_packet-Holds packet {s} e v =
      Holds-if (packet.type == 1) _ _ (take_sync-Holds packet.sync_token s e v.said) (
        Holds-if (packet.type == 2) _ _ (ack packet.sync_token) (
          Holds-if (packet.type == 3) _ _
            (Holds-if (is_syncing s.state) _ _ (record { token = v.token; said = v.said }) v)
            (Holds-if (packet.type == 6) _ _ (record { token = v.token; said = v.said }) v)))
    where
      ack : (k : ℕ) → Holds t (take_sync_ack h k s)
      ack k =
          Holds-if (s.sync_token == k) _ _
            (settle (sent-Holds type_sync_confirm [] (omega arith) v)) v
        where
          settle : {s1 : Session} → Holds t s1 → Holds t (record s1 { state = established })
          settle w = record { token = w.token; said = w.said }

  pub wait-Holds :
      (b : Bytes) {s : Session}
      → Carries t b
      → Holds t s
      → Holds t (simultaneous_open_wait_for_sync h (bytes b) s).1
  wait-Holds b {s} c v = elim (wait-cases h b s) [
    | inl e ↦ subst (Holds t) (sym e) v
    | inr (packet, (payload, (e, r))) ↦
        subst (Holds t) (sym r) (
          take_packet-Holds packet (c packet payload e) (record { token = v.token; said = v.said }))
  ]

  pub say-Holds :
      (text : Bytes) {s : Session} → Holds t s → Holds t (simultaneous_open_send h text s).1
  unfolding simultaneous_open_send
  say-Holds text {s} v = elim (Bool-cases (is_empty text || not (is_established s.state))) [
    | inl e ↦ rw (simultaneous_open_send, e) v
    | inr e ↦ rw (simultaneous_open_send, e) (sent-Holds type_data text (omega arith) v)
  ]
