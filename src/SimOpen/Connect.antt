-- ===== src/SimOpen/Connect.antt =====
-- simultaneous_open.c: the two ways to open a connection, and the punching of a hole with one of
-- them.
use orcashi.Prelude.{
  ℕ, zero, suc, ℤ, Bool, true, false, not, ◌&&◌, Option, none, some, [], ltb, if◌then◌else◌, Code,
  ok, err, is_positive,
}
use orcashi.CString.Text.{Bytes}
use orcashi.CString.Memory.{Run, done, ◌>>=◌}
use orcashi.SimOpen.Types.{connecting, syncing, is_established, Session, Net, Reception, Opening}
use orcashi.SimOpen.Session.{
  zero_session, simultaneous_open_init, simultaneous_open_cleanup, simultaneous_open_send_packet,
  simultaneous_open_wait_for_sync, type_sync,
}

abbrev pub max_retry : ℕ
max_retry = 5

abbrev pub is_ok : Code → Bool
is_ok ok = true
is_ok err = false

-- The two functions up to connect().
unfoldable pub open_socket : Opening → Bool → Session → Code × Session
unfolding simultaneous_open_cleanup
open_socket o initiator s = elim o.socket [
  | none ↦ (err, record s { local_port = o.port; socket_fd = none })
  | some fd ↦
      let s1 = record s {
        local_port = o.port;
        socket_fd = some fd;
        sync_token = o.token;
        is_initiator = initiator;
        state = connecting;
        start_time = o.now;
      } in
      elim o.connects [
        | err ↦ (err, simultaneous_open_cleanup s1)
        | ok ↦ (ok, record s1 { state = syncing })
      ]
]

abbrev pub resend : Net → ℕ → Session → Session
resend h i s = if ltb i 4 then (simultaneous_open_send_packet h type_sync [] s).1 else s

-- The loop of `simultaneous_open_connect` from the round `i` on, with the rounds that are left.
unfoldable pub connect_rounds : (ℕ → Net × Reception) → ℕ → ℕ → Session → Code × Session
unfolding simultaneous_open_cleanup simultaneous_open_wait_for_sync simultaneous_open_send_packet
connect_rounds net zero i s = (err, simultaneous_open_cleanup s)
connect_rounds net (suc n) i s =
    let (h, reception) = net i in
    let (code, s1) = simultaneous_open_wait_for_sync h reception s in
    let rest = connect_rounds net n (suc i) (resend h i s1) in
    if is_ok code && is_established s1.state then (ok, s1) else rest

-- The loop of `simultaneous_open_accept`.
unfoldable pub accept_rounds : (ℕ → Net × Reception) → ℕ → ℕ → Session → Code × Session
unfolding simultaneous_open_cleanup simultaneous_open_wait_for_sync
accept_rounds net zero i s = (err, simultaneous_open_cleanup s)
accept_rounds net (suc n) i s =
    let (h, reception) = net i in
    let (code, s1) = simultaneous_open_wait_for_sync h reception s in
    let rest = accept_rounds net n (suc i) s1 in
    if is_ok code && is_established s1.state then (ok, s1) else rest

-- `first` is the network at the first SYNC.
unfoldable pub simultaneous_open_connect :
    Opening → Net → (ℕ → Net × Reception) → Session → Code × Session
unfolding open_socket connect_rounds
simultaneous_open_connect o first net s =
    let (code, s1) = open_socket o true s in
    elim code [
      | err ↦ (err, s1)
      | ok ↦ connect_rounds net max_retry 0 (simultaneous_open_send_packet first type_sync [] s1).1
    ]

unfoldable pub simultaneous_open_accept : Opening → (ℕ → Net × Reception) → Session → Code × Session
unfolding open_socket accept_rounds
simultaneous_open_accept o net s =
    let (code, s1) = open_socket o false s in
    elim code [ err ↦ (err, s1) | ok ↦ accept_rounds net max_retry 0 s1 ]

-- What of a `PunchState` the function writes.
pub record Punched : Type 0 where
  pub udp_socket : Option ℕ
  pub peer_ip : Bytes
  pub peer_port : ℤ
  pub punched : Bool

unfoldable pub simultaneous_open_punch :
    Opening → Net → (ℕ → Net × Reception) → Bytes → ℤ → Punched → Run (Code × Punched)
unfolding simultaneous_open_init simultaneous_open_connect
simultaneous_open_punch o first net target_ip target_port p =
    if not (is_positive target_port)
    then done (err, p)
    else (simultaneous_open_init target_ip target_port zero_session >>= λ (code, s). elim code [
      | err ↦ done (err, p)
      | ok ↦
          let (code', s1) = simultaneous_open_connect o first net s in
          elim code' [
            | err ↦ done (err, p)
            | ok ↦ done (
              ok,
              record {
                udp_socket = s1.socket_fd;
                peer_ip = s1.peer_ip;
                peer_port = s1.peer_port;
                punched = true;
              },
            )
          ]
    ])
