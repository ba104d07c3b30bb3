-- ===== src/SimOpen/Attempt.antt =====
-- The whole of an attempt, and the punching of a hole.
use orcashi.Prelude.{
  ℕ, ◌≡◌, ◌<◌, refl, ap, ◌∙◌, ℤ, pos, Bool, true, false, not, Option, none, some, [], if-false,
  Code, ok, err, ◌⊎◌, inl, inr, is_positive, length,
}
use orcashi.CString.Text.{Bytes}
use orcashi.CString.Memory.{Run, done, strcpy, strcpy_ok, bind-done}
use orcashi.SimOpen.Types.{established, idle, Session, Net, Reception, Opening}
use orcashi.SimOpen.Session.{
  zero_session, simultaneous_open_init, simultaneous_open_cleanup, type_sync,
}
use orcashi.SimOpen.Connect.{
  open_socket, max_retry, simultaneous_open_connect, simultaneous_open_accept, Punched,
  simultaneous_open_punch,
}
use orcashi.SimOpen.Outcome.{
  send-IsSame, IsEnd, succeeds, fails, IsEnd-from, connect_rounds-IsEnd, accept_rounds-IsEnd,
}

-- The attempt reports success, is established and keeps the socket that was opened and what was
-- known of the peer's address; or it reports an error and has no socket, and is idle, or as it was
-- where no socket could be opened.
pub data Attempt (o : Opening) (s : Session) (r : Code × Session) : Type 0 where
  succeeded :
      r.0 ≡ ok
      → r.1.state ≡ established
      → r.1.socket_fd ≡ o.socket
      → r.1.peer_ip ≡ s.peer_ip
      → r.1.peer_port ≡ s.peer_port
      → Attempt o s r
  gave_up :
      r.0 ≡ err
      → r.1.socket_fd ≡ none
      → (r.1.state ≡ idle) ⊎ ((o.socket ≡ none) × (r.1.state ≡ s.state))
      → Attempt o s r

init_ok :
    (target_ip : Bytes) (target_port : ℤ) (s : Session)
    → is_positive target_port ≡ true
    → length target_ip < 16
    → simultaneous_open_init target_ip target_port s
      ≡ done (
        ok,
        record zero_session {
          target_ip = target_ip;
          target_port = target_port;
          state = idle;
          socket_fd = none;
        },
      )
unfolding simultaneous_open_init
init_ok target_ip target_port s positive short =
    if-false _ _ _ (ap not positive)
    ∙ bind-done (strcpy 16 target_ip) target_ip _ (strcpy_ok 16 target_ip short)

data IsOpened (o : Opening) (s : Session) (r : Code × Session) : Type 0 where
  is_open :
      r.0 ≡ ok
      → r.1.socket_fd ≡ o.socket
      → r.1.peer_ip ≡ s.peer_ip
      → r.1.peer_port ≡ s.peer_port
      → IsOpened o s r
  refused :
      r.0 ≡ err
      → r.1.socket_fd ≡ none
      → (r.1.state ≡ idle) ⊎ ((o.socket ≡ none) × (r.1.state ≡ s.state))
      → IsOpened o s r

open_socket-IsOpened : (o : Opening) (b : Bool) (s : Session) → IsOpened o s (open_socket o b s)
unfolding open_socket simultaneous_open_cleanup
open_socket-IsOpened o b s = go o.socket o.connects
  where
    go :
        (x : Option ℕ) (c : Code)
        → IsOpened
            (record o { socket = x; connects = c })
            s
            (open_socket (record o { socket = x; connects = c }) b s)
    go none c = refused refl refl (inr (refl, refl))
    go (some fd) err = refused refl refl (inl refl)
    go (some fd) ok = is_open refl refl refl refl

-- An attempt that goes on where a socket is open.
opened-Attempt :
    (o : Opening) (s : Session) (r : Code × Session) (f : Session → Code × Session)
    → IsOpened o s r
    → ((s1 : Session) → IsEnd s1 (f s1))
    → Attempt o s (elim r.0 [ err ↦ (err, r.1) | ok ↦ f r.1 ])
opened-Attempt o s (err, s1) f (is_open a b c d) ends = cc
opened-Attempt o s (err, s1) f (refused a b c) ends = gave_up refl b c
opened-Attempt o s (ok, s1) f (refused a b c) ends = cc
opened-Attempt o s (ok, s1) f (is_open a b c d) ends = ended (f s1) (ends s1)
  where
    ended : (r : Code × Session) → IsEnd s1 r → Attempt o s r
    ended r (succeeds p q u) = succeeded p q (u.socket ∙ b) (u.ip ∙ c) (u.port ∙ d)
    ended r (fails p q u) = gave_up p u (inl q)

-- However the rounds go, connecting and accepting report success with an established session, or
-- report an error and have closed the socket.
pub attempts :
    (o : Opening) (h : Net) (net : ℕ → Net × Reception) (s : Session)
    → Attempt o s (simultaneous_open_connect o h net s)
      × Attempt o s (simultaneous_open_accept o net s)
unfolding simultaneous_open_connect simultaneous_open_accept
attempts o h net s = (
  opened-Attempt o s (open_socket o true s) _ (open_socket-IsOpened o true s)
      (λ s1. IsEnd-from (send-IsSame h type_sync s1) (connect_rounds-IsEnd net max_retry 0 _)),
  opened-Attempt o s (open_socket o false s) _ (open_socket-IsOpened o false s)
      (λ s1. accept_rounds-IsEnd net max_retry 0 s1),
)

-- Punching a hole towards an address of fewer than 16 bytes and a port above 0 fails and writes
-- nothing, or reports success with the socket, an empty address and the port 0 of the peer.
punch_nowhere :
    (o : Opening) (h : Net) (net : ℕ → Net × Reception) (target_ip : Bytes) (target_port : ℤ)
    (p : Punched)
    → is_positive target_port ≡ true
    → length target_ip < 16
    → (simultaneous_open_punch o h net target_ip target_port p ≡ done (err, p))
      ⊎ (simultaneous_open_punch o h net target_ip target_port p
          ≡ done (
            ok,
            record { udp_socket = o.socket; peer_ip = []; peer_port = pos 0; punched = true },
          ))
unfolding simultaneous_open_punch
punch_nowhere o h net target_ip target_port p positive short =
    elim (result (simultaneous_open_connect o h net begun) (attempts o h net begun).0) [
      | inl e ↦ inl (run ∙ e)
      | inr e ↦ inr (run ∙ e)
    ]
  where
    begun : Session
    begun = record zero_session {
      target_ip = target_ip;
      target_port = target_port;
      state = idle;
      socket_fd = none;
    }

    write : Code × Session → Run (Code × Punched)
    write r = elim r.0 [
      | err ↦ done (err, p)
      | ok ↦ done (
        ok,
        record {
          udp_socket = r.1.socket_fd;
          peer_ip = r.1.peer_ip;
          peer_port = r.1.peer_port;
          punched = true;
        },
      )
    ]

    started : simultaneous_open_init target_ip target_port zero_session ≡ done (ok, begun)
    started = init_ok target_ip target_port zero_session positive short

    run :
        simultaneous_open_punch o h net target_ip target_port p
        ≡ write (simultaneous_open_connect o h net begun)
    run =
        if-false _ _ _ (ap not positive)
        ∙ bind-done (simultaneous_open_init target_ip target_port zero_session) (ok, begun) _
            started

    result :
        (r : Code × Session)
        → Attempt o begun r
        → (write r ≡ done (err, p))
          ⊎ (write r
              ≡ done (
                ok,
                record { udp_socket = o.socket; peer_ip = []; peer_port = pos 0; punched = true },
              ))
    result (err, s1) a = inl refl
    result (ok, s1) (gave_up a b c) = cc
    result (ok, s1) (succeeded a b c d e) = inr (λ i.
        done (ok, record { udp_socket = c i; peer_ip = d i; peer_port = e i; punched = true }))
