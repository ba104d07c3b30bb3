-- ===== src/P2p/Sending.antt =====
-- Where `send_message` sends.
use orcashi.Prelude.{
  ℕ, ◌≡◌, refl, Bool, true, false, Option, none, some, if◌then◌else◌, Code, ok, err,
}
use orcashi.CString.Text.{Bytes}
use orcashi.P2p.Types.{Manager, Host}
use orcashi.P2p.Table.{peer_at}
use orcashi.P2p.Channel.{is_refused, sent_off, send_message}

pub send_message_ok :
    (h : Host) (i type : ℕ) (payload : Bytes) (m : Manager) (fd : ℕ)
    → (peer_at m i).udp_socket ≡ some fd
    → is_refused h i type (peer_at m i) ≡ false
    → send_message h i type payload m ≡ (ok, sent_off h i type payload m)
unfolding send_message
send_message_ok h i type payload m fd opened taken =
    open_and_taken (peer_at m i).udp_socket (is_refused h i type (peer_at m i)) _ opened taken
  where
    open_and_taken :
        (o : Option ℕ) (b : Bool) (r : Code × Manager)
        → o ≡ some fd
        → b ≡ false
        → elim o [ none ↦ (err, m) | some fd ↦ if b then (err, m) else r ] ≡ r
    open_and_taken none b r e t = cc
    open_and_taken (some fd) true r e t = cc
    open_and_taken (some fd) false r e t = refl
