-- ===== src/SimOpen/Outcome.antt =====
-- How an attempt to connect or to accept ends.
use orcashi.Prelude.{
  ℕ, zero, suc, ◌≡◌, refl, ap, ◌∙◌, Bool, true, false, ◌&&◌, none, [], ltb, if◌then◌else◌, Code, ok,
  err, ◌==◌, inl, inr,
}
use orcashi.SimOpen.Types.{
  SimOpenState, connecting, syncing, failed, is_syncing, established, idle, is_established, Session,
  Net, Reception, failure, nothing, ending, bytes,
}
use orcashi.SimOpen.Packet.{SimPacket}
use orcashi.SimOpen.Session.{
  simultaneous_open_cleanup, simultaneous_open_send_packet, simultaneous_open_wait_for_sync,
  type_sync, take_packet, take_sync, take_sync_ack,
}
use orcashi.SimOpen.Connect.{is_ok, resend, connect_rounds, accept_rounds}
use orcashi.SimOpen.Cases.{send_packet-cases, wait-cases}

-- The same socket and the same address of the peer.
pub record IsSame (s s' : Session) : Type 0 where
  pub socket : s'.socket_fd ≡ s.socket_fd
  pub ip : s'.peer_ip ≡ s.peer_ip
  pub port : s'.peer_port ≡ s.peer_port

IsSame-if :
    {s : Session} (b : Bool) (x y : Session)
    → IsSame s x
    → IsSame s y
    → IsSame s (if b then x else y)
IsSame-if true x y u v = u
IsSame-if false x y u v = v

pub IsSame-then : {s s1 s2 : Session} → IsSame s s1 → IsSame s1 s2 → IsSame s s2
IsSame-then u v = record { socket = v.socket ∙ u.socket; ip = v.ip ∙ u.ip; port = v.port ∙ u.port }

IsSame-self : {s s' : Session} → s' ≡ s → IsSame s s'
IsSame-self e = record {
  socket = ap (λ s. s.socket_fd) e;
  ip = ap (λ s. s.peer_ip) e;
  port = ap (λ s. s.peer_port) e;
}

pub send-IsSame :
    (h : Net) (type : ℕ) (s : Session) → IsSame s (simultaneous_open_send_packet h type [] s).1
send-IsSame h type s = elim (send_packet-cases h type [] s) [
  | inl e ↦ IsSame-self e
  | inr e ↦ record {
    socket = ap (λ s. s.socket_fd) e;
    ip = ap (λ s. s.peer_ip) e;
    port = ap (λ s. s.peer_port) e;
  }
]

module _ (h : Net) where
  take_sync-IsSame : (k : ℕ) (s : Session) → IsSame s (take_sync h k s)
  take_sync-IsSame k s = settle (send-IsSame h 2 (record s { sync_token = k }))
    where
      settle :
          {s1 : Session}
          → IsSame (record s { sync_token = k }) s1
          → IsSame s (if is_syncing s1.state then record s1 { state = established } else s1)
      settle {s1} w =
          IsSame-if (is_syncing s1.state) _ _
            (record { socket = w.socket; ip = w.ip; port = w.port })
            (record { socket = w.socket; ip = w.ip; port = w.port })

  take_sync_ack-IsSame : (k : ℕ) (s : Session) → IsSame s (take_sync_ack h k s)
  take_sync_ack-IsSame k s =
      IsSame-if (s.sync_token == k) _ _ (settle (send-IsSame h 3 s)) (IsSame-self refl)
    where
      settle : {s1 : Session} → IsSame s s1 → IsSame s (record s1 { state = established })
      settle w = record { socket = w.socket; ip = w.ip; port = w.port }

  take_packet-IsSame : (packet : SimPacket) (s : Session) → IsSame s (take_packet h packet s)
  unfolding take_packet
  take_packet-IsSame packet s =
      IsSame-if (packet.type == 1) _ _ (take_sync-IsSame packet.sync_token s) (
        IsSame-if (packet.type == 2) _ _ (take_sync_ack-IsSame packet.sync_token s) (
          IsSame-if (packet.type == 3) _ _
            (IsSame-if (is_syncing s.state) (record s { state = established }) s
              (record { socket = refl; ip = refl; port = refl }) (IsSame-self refl))
            (IsSame-if (packet.type == 6) (record s { state = idle }) s
              (record { socket = refl; ip = refl; port = refl }) (IsSame-self refl))))

  wait-IsSame : (r : Reception) (s : Session) → IsSame s (simultaneous_open_wait_for_sync h r s).1
  unfolding simultaneous_open_wait_for_sync
  wait-IsSame failure s = IsSame-self refl
  wait-IsSame nothing s = IsSame-self refl
  wait-IsSame ending s = IsSame-self refl
  wait-IsSame (bytes b) s = elim (wait-cases h b s) [
    | inl e ↦ IsSame-self e
    | inr (packet, (payload, (e, u))) ↦
        IsSame-then (record { socket = refl; ip = refl; port = refl })
          (IsSame-then (take_packet-IsSame packet (record s { last_activity = h.now }))
            (IsSame-self u))
  ]

-- The attempt succeeds with an established session, or fails with an idle one whose socket is
-- closed.
pub data IsEnd (s : Session) (r : Code × Session) : Type 0 where
  succeeds : r.0 ≡ ok → r.1.state ≡ established → IsSame s r.1 → IsEnd s r
  fails : r.0 ≡ err → r.1.state ≡ idle → r.1.socket_fd ≡ none → IsEnd s r

established_of : (b : SimOpenState) → is_established b ≡ true → b ≡ established
established_of idle e = cc
established_of connecting e = cc
established_of syncing e = cc
established_of established e = refl
established_of failed e = cc

-- A round of either loop.
round-IsEnd :
    (s s1 : Session) (code : Code) (rest : Code × Session)
    → IsSame s s1
    → IsEnd s rest
    → IsEnd s (if is_ok code && is_established s1.state then (ok, s1) else rest)
round-IsEnd s s1 ok rest same e = go (is_established s1.state) refl
  where
    go : (b : Bool) → is_established s1.state ≡ b → IsEnd s (if b then (ok, s1) else rest)
    go true q = succeeds refl (established_of s1.state q) same
    go false q = e
round-IsEnd s s1 err rest same e = e

pub IsEnd-from : {s s1 : Session} {r : Code × Session} → IsSame s s1 → IsEnd s1 r → IsEnd s r
IsEnd-from u (succeeds a b c) = succeeds a b (IsSame-then u c)
IsEnd-from u (fails a b c) = fails a b c

resend-IsSame : (h : Net) (i : ℕ) (s : Session) → IsSame s (resend h i s)
resend-IsSame h i s = IsSame-if (ltb i 4) _ _ (send-IsSame h type_sync s) (IsSame-self refl)

pub connect_rounds-IsEnd :
    (net : ℕ → Net × Reception) (n i : ℕ) (s : Session) → IsEnd s (connect_rounds net n i s)
unfolding connect_rounds simultaneous_open_cleanup
connect_rounds-IsEnd net zero i s = fails refl refl refl
connect_rounds-IsEnd net (suc n) i s = round-IsEnd s _ _ _ heard (
    IsEnd-from (IsSame-then heard (resend-IsSame (net i).0 i _))
      (connect_rounds-IsEnd net n (suc i) _))
  where
    heard : IsSame s (simultaneous_open_wait_for_sync (net i).0 (net i).1 s).1
    heard = wait-IsSame (net i).0 (net i).1 s

pub accept_rounds-IsEnd :
    (net : ℕ → Net × Reception) (n i : ℕ) (s : Session) → IsEnd s (accept_rounds net n i s)
unfolding accept_rounds simultaneous_open_cleanup
accept_rounds-IsEnd net zero i s = fails refl refl refl
accept_rounds-IsEnd net (suc n) i s =
    round-IsEnd s _ _ _ heard (IsEnd-from heard (accept_rounds-IsEnd net n (suc i) _))
  where
    heard : IsSame s (simultaneous_open_wait_for_sync (net i).0 (net i).1 s).1
    heard = wait-IsSame (net i).0 (net i).1 s
