-- ===== src/Crypto/Nonce.antt =====
-- aes_gcm.c: counting nonces.
use native.Mathlib.Numerals.{unary_clauses}
use orcashi.Prelude.{
  ℕ, zero, suc, ◌+◌, ◌-◌, ◌*◌, ◌%◌, ◌^◌, ◌<◌, ◌≡◌, ◌≢◌, refl, ap, ◌∙◌, Bool, true, false, [], ◌∷◌,
  arith, ◌==◌, if◌then◌else◌, length, Bool-cases, inl, inr,
}
use orcashi.CString.Text.{Bytes}
use orcashi.Crypto.Hex.{AreBytes}

-- The loop from the last byte to the first, and whether it still counts when it has passed all.
unfoldable pub increment : Bytes → Bool × Bytes
increment [] = (true, [])
increment (b ∷ bs) =
    let (goes_on, rest) = increment bs in
    if goes_on then ((b + 1) % 256 == 0, (b + 1) % 256 ∷ rest) else (false, b ∷ rest)

unfoldable pub orca_aes_gcm_nonce_increment : Bytes → Bytes
unfolding increment
orca_aes_gcm_nonce_increment nonce = (increment nonce).1

-- The number that the bytes stand for, the most significant one first.
abbrev pub value : Bytes → ℕ
value [] = 0
value (b ∷ bs) = b * 256 ^ length bs + value bs

length-increment : (bs : Bytes) → length (increment bs).1 ≡ length bs
unfolding increment
length-increment [] = refl
length-increment (b ∷ bs) = ground (arith, length-increment bs)

increment-AreBytes : (bs : Bytes) → AreBytes bs → AreBytes (increment bs).1
unfolding increment
increment-AreBytes [] h = tt
increment-AreBytes (b ∷ bs) (hb, h) = elim (Bool-cases (increment bs).0) [
  | inl e ↦ rw e (omega arith, increment-AreBytes bs h)
  | inr e ↦ rw e (hb, increment-AreBytes bs h)
]

-- What is carried out of `bs`, in units of its last byte.
abbrev carried : Bool → ℕ → ℕ
carried true p = p
carried false p = 0

wraps : (b : ℕ) → b < 256 → ((b + 1) % 256 == 0) ≡ true → (b ≡ 255) × ((b + 1) % 256 ≡ 0)
wraps b h e = ground arith

counts_on : (b : ℕ) → b < 256 → ((b + 1) % 256 == 0) ≡ false → (b + 1) % 256 ≡ b + 1
counts_on b h e = ground arith

carry_on :
    (b p v w : ℕ)
    → b < 256
    → v + p ≡ w + 1
    → (((b + 1) % 256) * p + v) + carried ((b + 1) % 256 == 0) (256 * p) ≡ (b * p + w) + 1
carry_on b p v w h e = elim (Bool-cases ((b + 1) % 256 == 0)) [
  | inl f ↦ let (top, zeroed) = wraps b h f in rw (f, zeroed, top) (grind arith)
  | inr f ↦ rw (f, counts_on b h f) (grind arith)
]

pow_suc : (n : ℕ) → 256 ^ suc n ≡ 256 * 256 ^ n
pow_suc n = simp unary_clauses (omega arith)

increment-carried :
    (bs : Bytes)
    → AreBytes bs
    → value (increment bs).1 + carried (increment bs).0 (256 ^ length bs) ≡ value bs + 1
unfolding increment
increment-carried [] h = omega arith
increment-carried (b ∷ bs) (hb, h) = elim (Bool-cases (increment bs).0) [
  | inl e ↦
      rw (e, length-increment bs, pow_suc (length bs))
        (carry_on b (256 ^ length bs) (value (increment bs).1) (value bs) hb
          (rw e at (increment-carried bs h)))
  | inr e ↦ rw (e, length-increment bs) (omega (arith, (rw e at (increment-carried bs h))))
]

below_sum : (b d p v : ℕ) → v < p → b * p + v < (b + d + 1) * p
below_sum b d p v h = grind arith

below : (b p v : ℕ) → b < 256 → v < p → b * p + v < 256 * p
below b p v h k = rw (width b h) (below_sum b (255 - b) p v k)
  where
    width : (b : ℕ) → b < 256 → 256 ≡ b + (255 - b) + 1
    width b h = omega arith

value_below : (bs : Bytes) → AreBytes bs → value bs < 256 ^ length bs
value_below [] h = omega arith
value_below (b ∷ bs) (hb, h) =
    rw (pow_suc (length bs)) (below b (256 ^ length bs) (value bs) hb (value_below bs h))

modulo :
    (v w : ℕ) (c : Bool)
    → v < 256 ^ 12
    → w < 256 ^ 12
    → v + carried c (256 ^ 12) ≡ w + 1
    → v ≡ (w + 1) % 256 ^ 12
modulo v w true h k e = omega arith
modulo v w false h k e = omega arith

-- A nonce of 12 bytes.
abbrev pub IsNonce : Bytes → Type 0
IsNonce bs = (length bs ≡ 12) × AreBytes bs

increment-IsNonce : (bs : Bytes) → IsNonce bs → IsNonce (orca_aes_gcm_nonce_increment bs)
unfolding orca_aes_gcm_nonce_increment
increment-IsNonce bs (n, h) = (length-increment bs ∙ n, increment-AreBytes bs h)

value-increment :
    (bs : Bytes) → IsNonce bs → value (orca_aes_gcm_nonce_increment bs) ≡ (value bs + 1) % 256 ^ 12
unfolding orca_aes_gcm_nonce_increment
value-increment bs (n, h) =
    modulo (value (increment bs).1) (value bs) (increment bs).0
      (rw (length-increment bs, n) at (value_below (increment bs).1 (increment-AreBytes bs h)))
      (rw n at (value_below bs h)) (rw n at (increment-carried bs h))

-- The nonce after `k` increments.
unfoldable pub increments : ℕ → Bytes → Bytes
increments zero nonce = nonce
increments (suc k) nonce = orca_aes_gcm_nonce_increment (increments k nonce)

increments-IsNonce : (k : ℕ) (bs : Bytes) → IsNonce bs → IsNonce (increments k bs)
unfolding increments
increments-IsNonce zero bs h = h
increments-IsNonce (suc k) bs h = increment-IsNonce (increments k bs) (increments-IsNonce k bs h)

value-increments :
    (k : ℕ) (bs : Bytes) → IsNonce bs → value (increments k bs) ≡ (value bs + k) % 256 ^ 12
unfolding increments
value-increments zero bs (n, h) = omega (arith, (rw n at (value_below bs h)))
value-increments (suc k) bs h =
    value-increment (increments k bs) (increments-IsNonce k bs h)
    ∙ omega (arith, value-increments k bs h)

-- After `k` increments a nonce of 12 bytes is again one, and stands for the number that it stood
-- for, plus `k`, modulo 2 ^ 96.
pub increments-count :
    (k : ℕ) (bs : Bytes)
    → IsNonce bs
    → IsNonce (increments k bs) × (value (increments k bs) ≡ (value bs + k) % 2 ^ 96)
increments-count k bs h = (increments-IsNonce k bs h, value-increments k bs h)

-- No nonce comes back before 2 ^ 96 increments.
pub increments_differ :
    (j k : ℕ) (bs : Bytes) → IsNonce bs → j < k → k < 2 ^ 96 → increments j bs ≢ increments k bs
increments_differ j k bs h less small e =
    omega (arith, value-increments j bs h, value-increments k bs h, ap value e, less, small)
