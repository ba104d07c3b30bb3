-- ===== src/Turn/Response.antt =====
-- turn_client.c: the attributes of a message that is received.
use Prim.Native.Nat.{bit_xor}
use orcashi.Prelude.{
  ℕ, zero, suc, ◌+◌, ◌-◌, ◌*◌, ◌^◌, ℤ, pos, add_nat, Bool, not, ◌&&◌, Option, none, some, [], ◌∷◌,
  ◌==◌, ltb, leb, drop, length, if◌then◌else◌, Code, ok, err, is_positive,
}
use orcashi.CString.Text.{Bytes, is_empty}
use orcashi.CString.Memory.{Run, done, overrun, read_bytes, ◌>>=◌}
use orcashi.CString.Address.{show_ipv4}
use orcashi.Turn.Types.{TurnSession, established}
use orcashi.Turn.Request.{magic_cookie}

-- What a loop over the attributes meets: each has a type, a length and the bytes from its value on to the end of the buffer. The loop comes
-- to its end, or reads behind the buffer.
pub data Attributes : Type 0 where
  ended beyond : Attributes
  attribute : ℕ → ℕ → Bytes → Attributes → Attributes

-- `attr_len -= attr_size` on a `size_t`.
abbrev pub minus : ℕ → ℕ → ℕ
minus n m = if ltb n m then n + 2 ^ 64 - m else n - m

-- `len` is `attr_len`, and `block` the buffer from `attr_data` on. A round takes at least four bytes, so that one round more than bytes is
-- enough.
unfoldable pub attributes : ℕ → ℕ → Bytes → Attributes
attributes zero len block = beyond
attributes (suc fuel) len (t0 ∷ t1 ∷ l0 ∷ l1 ∷ value) =
    let attr_length = l0 * 256 + l1 in
    let rest = attributes fuel (minus len (4 + attr_length)) (drop attr_length value) in
    if ltb len 4 then ended else attribute (t0 * 256 + t1) attr_length value rest
attributes (suc fuel) len block = if ltb len 4 then ended else beyond

pub record TurnMessage : Type 0 where
  pub type : ℕ
  pub length : ℕ
  pub cookie : ℕ

-- `(TURNMessage*)buffer`, and the bytes from `attributes` on.
unfoldable pub read_message : Bytes → Option (TurnMessage × Bytes)
read_message
      (t0 ∷ t1 ∷ l0 ∷ l1 ∷ c0 ∷ c1 ∷ c2 ∷ c3 ∷ i0 ∷ i1 ∷ i2 ∷ i3 ∷ i4 ∷ i5 ∷ i6 ∷ i7 ∷ i8 ∷ i9 ∷ i10
        ∷ i11 ∷ rest) =
    some (
      record {
        type = t0 * 256 + t1;
        length = l0 * 256 + l1;
        cookie = c0 * 2 ^ 24 + c1 * 2 ^ 16 + c2 * 2 ^ 8 + c3;
      },
      rest,
    )
read_message _ = none

abbrev pub walk : TurnMessage → Bytes → Attributes
walk msg rest = attributes (suc (length rest)) msg.length rest

-- The address of the relay in the order of the bytes in which the code takes it apart; the port as it stands.
unfoldable pub take_address : Bytes → TurnSession → TurnSession
take_address (v0 ∷ family ∷ p0 ∷ p1 ∷ a ∷ b ∷ c ∷ d ∷ []) s =
    if family == 1
    then record s {
      relay_ip = show_ipv4 (bit_xor a 66, bit_xor b 164, bit_xor c 18, bit_xor d 33);
      relay_port = pos (p0 * 256 + p1);
    }
    else s
take_address _ s = s

unfoldable pub take_lifetime : ℤ → Bytes → TurnSession → TurnSession
take_lifetime now (a ∷ b ∷ c ∷ d ∷ []) s = record s {
  allocation_expires = add_nat now (a * 2 ^ 24 + b * 2 ^ 16 + c * 2 ^ 8 + d);
}
take_lifetime now _ s = s

-- A read of the first `n` bytes of a value.
abbrev pub with_value :
    Bool → ℕ → Bytes → (Bytes → TurnSession → TurnSession) → TurnSession → Run TurnSession
with_value b n value f s =
    if b then (read_bytes 0 n value >>= λ bytes. done (f bytes s)) else done s

unfoldable pub take_attributes : ℤ → Attributes → TurnSession → Run TurnSession
unfolding take_address take_lifetime
take_attributes now ended s = done s
take_attributes now beyond s = overrun
take_attributes now (attribute type len value rest) s =
    with_value ((type == 22) && leb 8 len) 8 value take_address s >>= λ s1.
    with_value ((type == 13) && leb 4 len) 4 value (take_lifetime now) s1 >>= λ s2.
    take_attributes now rest s2

-- The loop that logs the errors of a response: their text is read up to a NUL, which is left out.
unfoldable pub log_errors : Attributes → Run Code
log_errors ended = done err
log_errors beyond = overrun
log_errors (attribute type len value rest) =
    if (type == 9) && leb 4 len
    then (read_bytes 0 4 value >>= λ bytes. log_errors rest)
    else log_errors rest

unfoldable pub turn_parse_allocate_response : ℤ → ℕ → Bytes → TurnSession → Run (Code × TurnSession)
unfolding attributes read_message take_attributes log_errors
turn_parse_allocate_response now n buffer s =
    if ltb n 20 then done (err, s) else elim (read_message buffer) [
      | none ↦ overrun
      | some (msg, rest) ↦
          if not (msg.cookie == magic_cookie)
          then done (err, s)
          else if msg.type == 259
          then (take_attributes now (walk msg rest) s >>= λ s1.
              if not (is_empty s1.relay_ip) && is_positive s1.relay_port
              then done (ok, record s1 { state = established; last_activity = now })
              else done (err, s1))
          else if msg.type == 275
          then (log_errors (walk msg rest) >>= λ code. done (code, s))
          else done (err, s)
    ]

-- The first attribute with data, if the loop meets one.
unfoldable pub find_data : Attributes → Run (Option (ℕ × Bytes))
find_data ended = done none
find_data beyond = overrun
find_data (attribute type len value rest) =
    let r = find_data rest in if type == 19 then done (some (len, value)) else r

unfoldable pub turn_process_message : ℤ → ℕ → Bytes → TurnSession → Run TurnSession
unfolding attributes read_message find_data
turn_process_message now n buffer s = if ltb n 20 then done s else elim (read_message buffer) [
  | none ↦ overrun
  | some (msg, rest) ↦
      if msg.type == 23
      then (find_data (walk msg rest) >>= λ found.
          done (elim found [ none ↦ s | some (len, value) ↦ record s { last_activity = now } ]))
      else done s
]
