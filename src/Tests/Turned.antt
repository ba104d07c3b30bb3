-- ===== src/Tests/Turned.antt =====
-- TURN at concrete inputs.
use orcashi.Prelude.{◌≡◌, refl, pos, some, [], ◌++◌, replicate, arith, take, drop}
use orcashi.CString.Text.{Bytes}
use orcashi.CString.Memory.{overrun}
use orcashi.Turn.Types.{zero_server, zero_session}
use orcashi.Turn.Request.{be16, be32, magic_cookie, lifetime_attribute, turn_build_allocate_request}
use orcashi.Turn.Response.{read_message, turn_parse_allocate_response}
use orcashi.Turn.Walking.{long_attribute}
use orcashi.Turn.Overlap.{known_id}

-- A message that says that it has 8 bytes of attributes, with an attribute of 300 bytes.
abbrev answer : Bytes
answer = be16 259 (be16 8 (be32 magic_cookie (replicate 12 0 ++ be16 13 (be16 300 (be32 600 [])))))

answer_read :
    read_message answer
    ≡ some
        (record { type = 259; length = 8; cookie = magic_cookie }, be16 13 (be16 300 (be32 600 [])))
unfolding read_message
answer_read = refl

long_attribute_example : turn_parse_allocate_response (pos 1000) 28 answer zero_session ≡ overrun
long_attribute_example =
    long_attribute (pos 1000) 28 answer (record { type = 259; length = 8; cookie = magic_cookie }) 0
      13 1 44 (be32 600 []) zero_session (omega arith) answer_read refl refl (ground arith)
      (omega arith) (omega arith) (omega arith)

known_id_example :
    take 8 (
      drop 8 (
        turn_build_allocate_request
          (replicate 12 7)
          (replicate 512 0)
          (record zero_server { lifetime = 3600 })))
    ≡ lifetime_attribute 3600
known_id_example =
    known_id (replicate 12 7) (replicate 512 0) (record zero_server { lifetime = 3600 }) refl
      (ground arith) refl
