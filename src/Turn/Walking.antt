-- ===== src/Turn/Walking.antt =====
-- The loop over the attributes of a message: its rounds, and what an attribute does that is longer than the message.
use orcashi.Prelude.{
  ℕ, zero, suc, ◌+◌, ◌-◌, ◌*◌, ◌^◌, ◌≤◌, ◌<◌, ◌≡◌, ◌⊎◌, refl, ap, ◌∙◌, ℤ, Bool, true, false, ◌&&◌,
  some, [], ◌∷◌, ◌==◌, arith, ltb, leb, le→ltb, drop, take, length, All, if◌then◌else◌, Bool-cases,
  inl, inr,
}
use orcashi.CString.Text.{Bytes}
use orcashi.CString.Memory.{Run, done, overrun, read_bytes, ◌>>=◌}
use orcashi.Turn.Types.{TurnSession}
use orcashi.Turn.Request.{magic_cookie}
use orcashi.Turn.Response.{
  Attributes, ended, beyond, attribute, minus, attributes, TurnMessage, read_message, walk,
  take_address, take_lifetime, with_value, take_attributes, turn_parse_allocate_response,
}

drop_le : (n : ℕ) (s : Bytes) → length (drop n s) ≤ length s
drop_le zero s = omega arith
drop_le (suc n) [] = omega arith
drop_le (suc n) (c ∷ s) = omega (arith, drop_le n s)

-- The loop takes at most one round more than there are bytes: with that many rounds or more it meets the same attributes and comes to the
-- same end.
attributes_enough :
    (f g n : ℕ) (b : Bytes) → length b < f → length b < g → attributes f n b ≡ attributes g n b
unfolding attributes
attributes_enough zero g n b h k = absurd (omega arith)
attributes_enough (suc f) zero n b h k = absurd (omega arith)
attributes_enough (suc f) (suc g) n [] h k = refl
attributes_enough (suc f) (suc g) n (t0 ∷ []) h k = refl
attributes_enough (suc f) (suc g) n (t0 ∷ t1 ∷ []) h k = refl
attributes_enough (suc f) (suc g) n (t0 ∷ t1 ∷ l0 ∷ []) h k = refl
attributes_enough (suc f) (suc g) n (t0 ∷ t1 ∷ l0 ∷ l1 ∷ value) h k =
    ap (λ r. if ltb n 4 then ended else attribute (t0 * 256 + t1) (l0 * 256 + l1) value r)
      (attributes_enough f g (minus n (4 + (l0 * 256 + l1))) (drop (l0 * 256 + l1) value)
        (omega (arith, drop_le (l0 * 256 + l1) value, h))
        (omega (arith, drop_le (l0 * 256 + l1) value, k)))

-- The loop does not end but by reading behind the buffer.
unfoldable pub IsBeyond : Attributes → Type 0
IsBeyond ended = ⊥
IsBeyond beyond = Unit
IsBeyond (attribute type len value rest) = IsBeyond rest

abbrev pub IsBytes : Bytes → Type 0
IsBytes = All (λ c. c < 256)

drop-IsBytes : (n : ℕ) (s : Bytes) → IsBytes s → IsBytes (drop n s)
drop-IsBytes zero s h = h
drop-IsBytes (suc n) [] h = tt
drop-IsBytes (suc n) (c ∷ s) (p, h) = drop-IsBytes n s h

if-IsBeyond : (b : Bool) (x y : Attributes) → b ≡ false → IsBeyond y → IsBeyond (if b then x else y)
if-IsBeyond true x y e h = absurd (ground (arith, e))
if-IsBeyond false x y e h = h

less : (n m : ℕ) → m ≤ n → minus n m ≡ n - m
less n m h = ground arith

wrapped : (n m : ℕ) → n < m → minus n m ≡ n + 2 ^ 64 - m
wrapped n m h = ground arith

huge-IsBeyond :
    (f n : ℕ) (b : Bytes)
    → length b < f
    → IsBytes b
    → 65540 * (length b + 1) ≤ n
    → IsBeyond (attributes f n b)
unfolding attributes IsBeyond
huge-IsBeyond zero n b h k e = absurd (omega arith)
huge-IsBeyond (suc f) n [] h k e = if-IsBeyond (ltb n 4) ended beyond (le→ltb n 4 (omega arith)) tt
huge-IsBeyond (suc f) n (t0 ∷ []) h k e =
    if-IsBeyond (ltb n 4) ended beyond (le→ltb n 4 (omega arith)) tt
huge-IsBeyond (suc f) n (t0 ∷ t1 ∷ []) h k e =
    if-IsBeyond (ltb n 4) ended beyond (le→ltb n 4 (omega arith)) tt
huge-IsBeyond (suc f) n (t0 ∷ t1 ∷ l0 ∷ []) h k e =
    if-IsBeyond (ltb n 4) ended beyond (le→ltb n 4 (omega arith)) tt
huge-IsBeyond (suc f) n (t0 ∷ t1 ∷ l0 ∷ l1 ∷ value) h (b0, (b1, (b2, (b3, k)))) e =
    let less_left = drop_le (l0 * 256 + l1) value in
    if-IsBeyond (ltb n 4) ended _ (le→ltb n 4 (omega arith)) (
      huge-IsBeyond f (minus n (4 + (l0 * 256 + l1))) (drop (l0 * 256 + l1) value)
        (omega (arith, less_left, h)) (drop-IsBytes (l0 * 256 + l1) value k)
        (rw (less n (4 + (l0 * 256 + l1)) (omega (arith, b2, b3, e)))
          (omega (arith, less_left, e, b2, b3))))

too_long-IsBeyond :
    (f n t0 t1 l0 l1 : ℕ) (value : Bytes)
    → length value + 4 < f
    → IsBytes (l0 ∷ l1 ∷ value)
    → length value ≤ 4096
    → 4 ≤ n
    → n < 4 + (l0 * 256 + l1)
    → IsBeyond (attributes f n (t0 ∷ t1 ∷ l0 ∷ l1 ∷ value))
unfolding attributes IsBeyond
too_long-IsBeyond zero n t0 t1 l0 l1 value h k fits low long = absurd (omega arith)
too_long-IsBeyond (suc f) n t0 t1 l0 l1 value h (b2, (b3, k)) fits low long =
    let less_left = drop_le (l0 * 256 + l1) value in
    if-IsBeyond (ltb n 4) ended _ (le→ltb n 4 low) (
      huge-IsBeyond f (minus n (4 + (l0 * 256 + l1))) (drop (l0 * 256 + l1) value)
        (omega (arith, less_left, h)) (drop-IsBytes (l0 * 256 + l1) value k)
        (rw (wrapped n (4 + (l0 * 256 + l1)) long) (omega (arith, less_left, fits, b2, b3))))

value_cases :
    (b : Bool) (n : ℕ) (value : Bytes) (f : Bytes → TurnSession → TurnSession) (s : TurnSession)
    → ((s1 : TurnSession) × (with_value b n value f s ≡ done s1))
      ⊎ (with_value b n value f s ≡ overrun)
unfolding read_bytes
value_cases false n value f s = inl (s, refl)
value_cases true n value f s = elim (Bool-cases (leb (0 + n) (length value))) [
  | inl fits ↦ inl (f (take n (drop 0 value)) s, rw fits refl)
  | inr short ↦ inr (rw short refl)
]

overrun_after :
    (b : Bool) (n : ℕ) (value : Bytes) (f : Bytes → TurnSession → TurnSession) (s : TurnSession)
    (k : TurnSession → Run TurnSession)
    → ((s1 : TurnSession) → k s1 ≡ overrun)
    → (with_value b n value f s >>= k) ≡ overrun
overrun_after b n value f s k h = elim (value_cases b n value f s) [
  | inl (s1, e) ↦ ap (λ r. r >>= k) e ∙ h s1
  | inr e ↦ ap (λ r. r >>= k) e
]

take_beyond :
    (now : ℤ) (met : Attributes) (s : TurnSession)
    → IsBeyond met
    → take_attributes now met s ≡ overrun
unfolding take_attributes IsBeyond
take_beyond now ended s h = absurd h
take_beyond now beyond s h = refl
take_beyond now (attribute type len value rest) s h =
    overrun_after ((type == 22) && leb 8 len) 8 value take_address s _ λ s1.
      overrun_after ((type == 13) && leb 4 len) 4 value (take_lifetime now) s1 _
        λ s2. take_beyond now rest s2 h

-- An answer to a request for an allocation whose first attribute says that it is longer than the message makes the client read behind the end
-- of its buffer, where the message has room for the attribute's type and length.
pub long_attribute :
    (now : ℤ) (n : ℕ) (buffer : Bytes) (msg : TurnMessage) (t0 t1 l0 l1 : ℕ) (value : Bytes)
    (s : TurnSession)
    → 20 ≤ n
    → read_message buffer ≡ some (msg, t0 ∷ t1 ∷ l0 ∷ l1 ∷ value)
    → (msg.cookie == magic_cookie) ≡ true
    → (msg.type == 259) ≡ true
    → IsBytes (l0 ∷ l1 ∷ value)
    → length value ≤ 4096
    → 4 ≤ msg.length
    → msg.length < 4 + (l0 * 256 + l1)
    → turn_parse_allocate_response now n buffer s ≡ overrun
unfolding turn_parse_allocate_response
long_attribute now n buffer msg t0 t1 l0 l1 value s h e cookie type k fits low long =
    rw
      (
        turn_parse_allocate_response,
        le→ltb n 20 h,
        e,
        cookie,
        type,
        take_beyond now (walk msg (t0 ∷ t1 ∷ l0 ∷ l1 ∷ value)) s (
            too_long-IsBeyond (suc (length (t0 ∷ t1 ∷ l0 ∷ l1 ∷ value))) msg.length t0 t1 l0 l1
              value (omega arith) k fits low long),
      )
      refl
