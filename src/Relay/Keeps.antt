-- ===== src/Relay/Keeps.antt =====
-- Every history of the relayed connections keeps the table within its slots, and gives no session a socket.
use orcashi.Prelude.{
  ℕ, zero, suc, ◌-◌, ◌≤◌, ◌≡◌, refl, ap, ◌∙◌, ℤ, Bool, true, false, not, Option, none, some, List,
  [], ◌∷◌, arith, leb, length, length-set, get_or, set, All, All-set, Code, ok, err, if◌then◌else◌,
  is_positive, Bool-cases, inl, inr,
}
use orcashi.CString.Text.{Bytes, codes, fit, text_of}
use orcashi.CString.Memory.{
  Run, done, overrun, AtEnd, AtEnd-done, AtEnd-option, AtEnd-if, AtEnd-bind, AtEnd-then, strcpy,
}
use orcashi.Relay.Types.{
  RelaySession, RelayManager, Net, zero_session, is_established, relay_max_peers,
}
use orcashi.Relay.Table.{
  session_at, put_session, relay_find_session, relay_add_session, find_or_add, shift_sessions, shut,
  close_socket, relay_disconnect, relay_manager_init,
}
use orcashi.Relay.Calls.{
  copy_name, send_handshake, start_session, begin_connect, finish_connect, contains,
  relay_generate_session_keys, relay_accept, relay_send_packet,
}

abbrev pub is_open : Option ℕ → Bool
is_open none = false
is_open (some zero) = false
is_open (some (suc fd)) = true

abbrev pub NoSocket : RelaySession → Type 0
NoSocket s = is_open s.socket_fd ≡ false

pub record IsRelay (m : RelayManager) : Type 0 where
  pub slots : length m.sessions ≡ relay_max_peers
  pub count_in : m.count ≤ relay_max_peers
  pub no_socket : All NoSocket m.sessions

at-NoSocket :
    (ss : List RelaySession) (i : ℕ) → All NoSocket ss → NoSocket (get_or ss i zero_session)
at-NoSocket [] i h = refl
at-NoSocket (s ∷ ss) zero (p, h) = p
at-NoSocket (s ∷ ss) (suc i) (p, h) = at-NoSocket ss i h

pub session-NoSocket : {m : RelayManager} (i : ℕ) → IsRelay m → NoSocket (session_at m i)
session-NoSocket {m} i v = at-NoSocket m.sessions i v.no_socket

put-IsRelay :
    {m : RelayManager} (i : ℕ) (s : RelaySession)
    → IsRelay m
    → NoSocket s
    → IsRelay (put_session m i s)
put-IsRelay {m} i s v h = record {
  slots = length-set m.sessions i s ∙ v.slots;
  count_in = v.count_in;
  no_socket = All-set NoSocket m.sessions i s v.no_socket h;
}

abbrev pub After : {A : Type 0} → A × RelayManager → Type 0
After r = IsRelay r.1

pub add_session-After :
    (net : Net) (peer_id : Bytes) {m : RelayManager}
    → IsRelay m
    → AtEnd After (relay_add_session net peer_id m)
unfolding relay_add_session
add_session-After net peer_id {m} v = elim (Bool-cases (leb relay_max_peers m.count)) [
  | inl full ↦ rw full (AtEnd-done _ v)
  | inr room ↦ rw room (
      AtEnd-bind _ (strcpy 64 peer_id) _ λ copy. AtEnd-done _ (record {
        slots = length-set m.sessions m.count _ ∙ v.slots;
        count_in = ground arith;
        no_socket = All-set NoSocket m.sessions m.count _ v.no_socket refl;
      }))
]

find_or_add-After :
    (net : Net) (peer_id : Bytes) {m : RelayManager}
    → IsRelay m
    → AtEnd After (find_or_add net peer_id m)
unfolding find_or_add
find_or_add-After net peer_id {m} v =
    AtEnd-option _ (relay_find_session peer_id m) _ _ (add_session-After net peer_id v)
      λ i. AtEnd-done _ v

shift-NoSocket :
    (n j : ℕ) (ss : List RelaySession) → All NoSocket ss → All NoSocket (shift_sessions n j ss)
unfolding shift_sessions
shift-NoSocket zero j ss h = h
shift-NoSocket (suc n) j ss h =
    shift-NoSocket n (suc j) _ (All-set NoSocket ss j _ h (at-NoSocket ss (suc j) h))

length-shift : (n j : ℕ) (ss : List RelaySession) → length (shift_sessions n j ss) ≡ length ss
unfolding shift_sessions
length-shift zero j ss = refl
length-shift (suc n) j ss =
    length-shift n (suc j) (set ss j (get_or ss (suc j) zero_session)) ∙ length-set ss j _

pub closed-NoSocket : (o : Option ℕ) → is_open (close_socket o) ≡ false
closed-NoSocket none = refl
closed-NoSocket (some zero) = refl
closed-NoSocket (some (suc fd)) = refl

pub disconnect-IsRelay :
    (peer_id : Bytes) {m : RelayManager} → IsRelay m → IsRelay (relay_disconnect peer_id m).1
unfolding relay_disconnect
disconnect-IsRelay peer_id {m} v = go (relay_find_session peer_id m)
  where
    go :
        (o : Option ℕ)
        → IsRelay
            (elim o as (λ o. Code × RelayManager) [
              | none ↦ (ok, m)
              | some i ↦ (
                ok,
                record m {
                  sessions =
                      shift_sessions (m.count - 1 - i) i (set m.sessions i (shut (session_at m i)));
                  count = m.count - 1;
                },
              )
            ]).1
    go none = v
    go (some i) = record {
      slots = length-shift (m.count - 1 - i) i _ ∙ length-set m.sessions i _ ∙ v.slots;
      count_in = omega (arith, v.count_in);
      no_socket = shift-NoSocket (m.count - 1 - i) i _ (
          All-set NoSocket m.sessions i _ v.no_socket (closed-NoSocket (session_at m i).socket_fd));
    }

pub init-IsRelay :
    (net : Net) (my_id : Bytes) (port : ℤ) (m : RelayManager)
    → AtEnd After (relay_manager_init net my_id port m)
unfolding relay_manager_init
init-IsRelay net my_id port m =
    AtEnd-bind _ (strcpy 64 my_id) _ λ copy.
      AtEnd-done _ (record { slots = refl; count_in = omega arith; no_socket = ground arith })

pub same-IsRelay :
    {m : RelayManager} (i : ℕ) (s : RelaySession)
    → s.socket_fd ≡ (session_at m i).socket_fd
    → IsRelay m
    → IsRelay (put_session m i s)
same-IsRelay {m} i s e v = put-IsRelay i s v (ap is_open e ∙ session-NoSocket i v)

pub of-if : (b : Bool) (x y : Code × RelayManager) → After x → After y → After (if b then x else y)
of-if true x y h k = h
of-if false x y h k = k

module _ (net : Net) where
  send_handshake-After :
      (peer_id ip : Bytes) (port : ℤ) (i : ℕ) {m : RelayManager}
      → IsRelay m
      → AtEnd After (send_handshake net peer_id ip port i m)
  unfolding send_handshake
  send_handshake-After peer_id ip port i {m} v = AtEnd-bind _ (strcpy 64 _) _ λ my_id.
      AtEnd-if _ net.sends _ _
        (AtEnd-done _ (record { slots = v.slots; count_in = v.count_in; no_socket = v.no_socket }))
        (AtEnd-done _ (same-IsRelay i _ refl v))

  start_session-After :
      (peer_id : Bytes) (relay_id : Option Bytes) (ip : Bytes) (port : ℤ) (i : ℕ) {m : RelayManager}
      → IsRelay m
      → AtEnd After (start_session net peer_id relay_id ip port i m)
  unfolding start_session
  start_session-After peer_id relay_id ip port i {m} v =
      AtEnd-if _ (is_established (session_at m i).state) _ _ (AtEnd-done _ v) (
        AtEnd-bind _ (copy_name relay_id _) _ λ name.
          AtEnd-bind _ (strcpy 16 ip) _
            λ address. send_handshake-After peer_id ip port i (same-IsRelay i _ refl v))

  pub begin_connect-After :
      (peer_id : Bytes) (relay_id : Option Bytes) (ip : Bytes) (port : ℤ) {m : RelayManager}
      → IsRelay m
      → AtEnd After (begin_connect net peer_id relay_id ip port m)
  unfolding begin_connect
  begin_connect-After peer_id relay_id ip port {m} v =
      AtEnd-if _ (not (is_positive port)) _ _ (AtEnd-done _ v) (
        AtEnd-then _ (find_or_add net peer_id m) _ (find_or_add-After net peer_id v)
          λ (found, m1) v1.
            AtEnd-option _ found _ _ (AtEnd-done _ v1)
              λ i. start_session-After peer_id relay_id ip port i v1)

  pub finish_connect-IsRelay :
      (i : ℕ) (received : Option Bytes) {m : RelayManager}
      → IsRelay m
      → IsRelay (finish_connect net i received m).1
  unfolding finish_connect relay_generate_session_keys
  finish_connect-IsRelay i none v = same-IsRelay i _ refl v
  finish_connect-IsRelay i (some received) v =
      of-if (contains (codes "RELAY_HANDSHAKE_OK") (text_of (fit 512 received))) _ _
        (same-IsRelay i _ refl v) (same-IsRelay i _ refl v)

  pub accept-After :
      (peer_id : Bytes) (relay_id : Option Bytes) {m : RelayManager}
      → IsRelay m
      → AtEnd After (relay_accept net peer_id relay_id m)
  unfolding relay_accept relay_generate_session_keys
  accept-After peer_id relay_id {m} v =
      AtEnd-then _ (find_or_add net peer_id m) _ (find_or_add-After net peer_id v) λ (found, m1) v1.
        AtEnd-option _ found _ _ (AtEnd-done _ v1)
          λ i. AtEnd-bind _ (copy_name relay_id _) _ λ name. AtEnd-done _ (same-IsRelay i _ refl v1)

  -- A packet is not sent: there is no session with a socket of its own.
  pub send_packet-lost :
      (i type : ℕ) (payload : Bytes) {m : RelayManager}
      → IsRelay m
      → relay_send_packet net i type payload m ≡ (if not net.memory then done (err, m) else overrun)
  unfolding relay_send_packet
  send_packet-lost i type payload {m} v = go (session_at m i).socket_fd _ (session-NoSocket i v)
    where
      go :
          (o : Option ℕ) (f : ℕ → Run (Code × RelayManager))
          → is_open o ≡ false
          → (if not net.memory then done (err, m) else elim o as (λ o. Run (Code × RelayManager)) [
            | none ↦ overrun
            | some zero ↦ overrun
            | some (suc fd) ↦ f fd
          ])
            ≡ (if not net.memory then done (err, m) else overrun)
      go none f h = refl
      go (some zero) f h = refl
      go (some (suc fd)) f h = absurd (ground (arith, h))
