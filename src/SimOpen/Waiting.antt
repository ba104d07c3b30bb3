-- ===== src/SimOpen/Waiting.antt =====
-- What a session makes of a SYNC, of nothing, and of a text that it is given too early.
use orcashi.Prelude.{
  ℕ, zero, suc, ◌^◌, ◌<◌, ◌≡◌, refl, sym, ap, ◌∙◌, ℤ, Bool, true, false, not, ◌||◌, some, List, [],
  ◌∷◌, ◌==◌, if◌then◌else◌, err, get_or, All, arith, inl, inr, if-true,
}
use orcashi.CString.Text.{Bytes, is_empty}
use orcashi.SimOpen.Types.{syncing, is_established, Session, Net, bytes}
use orcashi.SimOpen.Packet.{SimPacket, read_packet, build_packet, read-packet_bytes}
use orcashi.SimOpen.Session.{
  simultaneous_open_send_packet, take_sync, take_packet, simultaneous_open_wait_for_sync,
  simultaneous_open_send, type_sync, type_data,
}
use orcashi.SimOpen.Cases.{session, wait-cases}
use orcashi.SimOpen.Holds.{some_injective}

pub take_packet-sync :
    (h : Net) (packet : SimPacket) (s : Session)
    → packet.type ≡ 1
    → take_packet h packet s ≡ take_sync h packet.sync_token s
unfolding take_packet
take_packet-sync h packet s e = if-true (packet.type == 1) _ _ (ap (λ k. k == 1) e)

-- The bytes hold no packet but a SYNC.
abbrev pub IsSync : Bytes → Type 0
IsSync b =
    (packet : SimPacket) (payload : Bytes)
    → read_packet b ≡ some (packet, payload)
    → packet.type ≡ 1

pub All-get {ℓ} :
    {A : Type 0} (P : A → Type ℓ) (xs : List A) (i : ℕ) (d : A) → P d → All P xs → P (get_or xs i d)
All-get P [] i d v h = v
All-get P (x ∷ xs) zero d v (p, h) = p
All-get P (x ∷ xs) (suc i) d v (p, h) = All-get P xs i d v h

pub nothing-IsSync : IsSync []
unfolding read_packet
nothing-IsSync packet payload e = cc

pub built-IsSync : (now : ℤ) (t : ℕ) → t < 2 ^ 32 → IsSync (build_packet now type_sync t [])
built-IsSync now t hk packet rest e = sym (
    ap (λ r. r.0.type)
      (some_injective (sym (read-packet_bytes now type_sync t 0 [] (omega arith) hk) ∙ e)))

-- A session that hears no packet stays as it is.
pub wait_nothing : (h : Net) (s : Session) → (simultaneous_open_wait_for_sync h (bytes []) s).1 ≡ s
unfolding read_packet
wait_nothing h s = elim (wait-cases h [] s) [ inl e ↦ e | inr (packet, (payload, (e, r))) ↦ cc ]

pub say_early :
    (h : Net) (text : Bytes) (s : Session)
    → s.state ≡ syncing
    → (simultaneous_open_send h text s).1 ≡ s
unfolding simultaneous_open_send
say_early h text s e =
    go (is_empty text || not (is_established s.state)) (rw e (early (is_empty text)))
  where
    early : (b : Bool) → (b || true) ≡ true
    early true = refl
    early false = refl

    go :
        (b : Bool)
        → b ≡ true
        → session (if b then (err, s) else simultaneous_open_send_packet h type_data text s) ≡ s
    go true e = refl
    go false e = cc
