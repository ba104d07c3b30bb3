-- ===== src/Tests/Open.antt =====
-- Simultaneous opening at concrete inputs.
use orcashi.Prelude.{
  ℕ, ◌≡◌, refl, pos, true, false, none, some, [], ok, replicate, arith, take, drop, ◌++◌,
}
use orcashi.CString.Text.{Bytes, codes}
use orcashi.CString.Memory.{done, overrun}
use orcashi.SimOpen.Types.{syncing, established, Session, Net, Reception, bytes, Opening}
use orcashi.SimOpen.Packet.{build_packet}
use orcashi.SimOpen.Session.{zero_session, type_sync, type_data, simultaneous_open_recv}
use orcashi.SimOpen.Connect.{Punched, simultaneous_open_connect, simultaneous_open_accept}
use orcashi.SimOpen.Forged.{sent, forged_token}
use orcashi.SimOpen.Texts.{recv-build, recv_long}
use orcashi.SimOpen.Attempt.{Attempt, attempts}

abbrev net : Net
net = record { now = pos 9; memory = true; sends = true }

abbrev caller : Session
caller = record zero_session { socket_fd = some 3; state = syncing; sync_token = 11 }

abbrev opened : Session
opened = record caller { state = established }

-- A second text arrives together with the first.
abbrev second : Bytes
second = build_packet (pos 9) type_data 11 (codes "you")

recv-build_example :
    simultaneous_open_recv net 100
      (bytes (build_packet (pos 9) type_data 11 (codes "Hi") ++ second))
      (replicate 475 0)
      opened
    ≡ done (ok, (codes "Hi", record opened { last_activity = pos 9 }))
recv-build_example =
    recv-build net 100 (pos 9) 11 (codes "Hi") second (replicate 475 0) opened (omega arith) refl
      (omega arith) (omega arith) (omega arith)

recv_long_example :
    simultaneous_open_recv net 512
      (bytes (take 512 (build_packet (pos 9) type_data 11 (replicate 600 65))))
      []
      opened
    ≡ overrun
recv_long_example =
    recv_long net 512 (pos 9) 11 (replicate 600 65) opened (omega arith) refl (ground arith)
      (ground arith) (omega arith)

forged_token_example :
    (s1 s2 : Session) × (simultaneous_open_recv net 496
        (bytes (take 512 (sent (pos 9) 11 (replicate 496 65) (pos 9) 99)))
        []
        opened
      ≡ done (ok, (take 496 (replicate 496 65), s1)))
    × (simultaneous_open_recv net 496
          (bytes (drop 512 (sent (pos 9) 11 (replicate 496 65) (pos 9) 99)))
          (replicate 496 0)
          s1
        ≡ done (ok, ([], s2)))
    × (s2.sync_token ≡ 99)
    × (s2.state ≡ established)
forged_token_example =
    forged_token net net 496 (pos 9) (pos 9) 11 99 (replicate 496 65) [] (replicate 496 0) opened
      (omega arith) (omega arith) refl (omega arith) (omega arith) (ground arith)

abbrev opening : Opening
opening = record { now = pos 8; port = 33451; socket = some 3; token = 11; connects = ok }

abbrev rounds : ℕ → Net × Reception
rounds i = (net, bytes (build_packet (pos 9) type_sync 22 []))

attempts_example :
    Attempt opening zero_session (simultaneous_open_connect opening net rounds zero_session)
    × Attempt opening zero_session (simultaneous_open_accept opening rounds zero_session)
attempts_example = attempts opening net rounds zero_session

abbrev unpunched : Punched
unpunched = record { udp_socket = none; peer_ip = []; peer_port = pos 5; punched = false }
