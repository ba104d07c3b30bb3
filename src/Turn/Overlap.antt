-- ===== src/Turn/Overlap.antt =====
-- Where the attributes of a request for an allocation are written.
use orcashi.Prelude.{
  ℕ, ◌≤◌, ◌≡◌, refl, ap, ◌∙◌, false, [], ◌∷◌, arith, length, take, drop, if-false,
}
use orcashi.CString.Text.{Bytes}
use orcashi.Turn.Types.{TurnServerConfig}
use orcashi.Turn.Request.{
  overwrite, be16, header, lifetime_attribute, has_username, finish, turn_build_allocate_request,
}

-- The request without a name of a user.
abbrev plain : Bytes → Bytes → ℕ → Bytes
plain random stack lifetime = finish 16 (
    overwrite 8 (lifetime_attribute lifetime)
      (overwrite 20 (be16 25 (be16 4 (17 ∷ 0 ∷ 0 ∷ 0 ∷ []))) (overwrite 0 (header 3 random) stack)))

module _ (r0 r1 r2 r3 r4 r5 r6 r7 r8 r9 r10 r11 lifetime : ℕ) where
  filled_stack :
      (stack : Bytes)
      → 28 ≤ length stack
      → take 8 (
          drop 8 (
            plain
              (r0 ∷ r1 ∷ r2 ∷ r3 ∷ r4 ∷ r5 ∷ r6 ∷ r7 ∷ r8 ∷ r9 ∷ r10 ∷ r11 ∷ [])
              stack
              lifetime))
        ≡ lifetime_attribute lifetime
  unfolding overwrite
  filled_stack [] h = absurd (ground arith)
  filled_stack (c0 ∷ []) h = absurd (ground arith)
  filled_stack (c0 ∷ c1 ∷ []) h = absurd (ground arith)
  filled_stack (c0 ∷ c1 ∷ c2 ∷ []) h = absurd (ground arith)
  filled_stack (c0 ∷ c1 ∷ c2 ∷ c3 ∷ []) h = absurd (ground arith)
  filled_stack (c0 ∷ c1 ∷ c2 ∷ c3 ∷ c4 ∷ []) h = absurd (ground arith)
  filled_stack (c0 ∷ c1 ∷ c2 ∷ c3 ∷ c4 ∷ c5 ∷ []) h = absurd (ground arith)
  filled_stack (c0 ∷ c1 ∷ c2 ∷ c3 ∷ c4 ∷ c5 ∷ c6 ∷ []) h = absurd (ground arith)
  filled_stack (c0 ∷ c1 ∷ c2 ∷ c3 ∷ c4 ∷ c5 ∷ c6 ∷ c7 ∷ []) h = absurd (ground arith)
  filled_stack (c0 ∷ c1 ∷ c2 ∷ c3 ∷ c4 ∷ c5 ∷ c6 ∷ c7 ∷ c8 ∷ []) h = absurd (ground arith)
  filled_stack (c0 ∷ c1 ∷ c2 ∷ c3 ∷ c4 ∷ c5 ∷ c6 ∷ c7 ∷ c8 ∷ c9 ∷ []) h = absurd (ground arith)
  filled_stack (c0 ∷ c1 ∷ c2 ∷ c3 ∷ c4 ∷ c5 ∷ c6 ∷ c7 ∷ c8 ∷ c9 ∷ c10 ∷ []) h =
      absurd (ground arith)
  filled_stack (c0 ∷ c1 ∷ c2 ∷ c3 ∷ c4 ∷ c5 ∷ c6 ∷ c7 ∷ c8 ∷ c9 ∷ c10 ∷ c11 ∷ []) h =
      absurd (ground arith)
  filled_stack (c0 ∷ c1 ∷ c2 ∷ c3 ∷ c4 ∷ c5 ∷ c6 ∷ c7 ∷ c8 ∷ c9 ∷ c10 ∷ c11 ∷ c12 ∷ []) h =
      absurd (ground arith)
  filled_stack (c0 ∷ c1 ∷ c2 ∷ c3 ∷ c4 ∷ c5 ∷ c6 ∷ c7 ∷ c8 ∷ c9 ∷ c10 ∷ c11 ∷ c12 ∷ c13 ∷ []) h =
      absurd (ground arith)
  filled_stack (c0 ∷ c1 ∷ c2 ∷ c3 ∷ c4 ∷ c5 ∷ c6 ∷ c7 ∷ c8 ∷ c9 ∷ c10 ∷ c11 ∷ c12 ∷ c13 ∷ c14 ∷ [])
        h =
      absurd (ground arith)
  filled_stack
        (c0 ∷ c1 ∷ c2 ∷ c3 ∷ c4 ∷ c5 ∷ c6 ∷ c7 ∷ c8 ∷ c9 ∷ c10 ∷ c11 ∷ c12 ∷ c13 ∷ c14 ∷ c15 ∷ [])
        h =
      absurd (ground arith)
  filled_stack
        (c0 ∷ c1 ∷ c2 ∷ c3 ∷ c4 ∷ c5 ∷ c6 ∷ c7 ∷ c8 ∷ c9 ∷ c10 ∷ c11 ∷ c12 ∷ c13 ∷ c14 ∷ c15 ∷ c16
          ∷ [])
        h =
      absurd (ground arith)
  filled_stack
        (c0 ∷ c1 ∷ c2 ∷ c3 ∷ c4 ∷ c5 ∷ c6 ∷ c7 ∷ c8 ∷ c9 ∷ c10 ∷ c11 ∷ c12 ∷ c13 ∷ c14 ∷ c15 ∷ c16
          ∷ c17 ∷ [])
        h =
      absurd (ground arith)
  filled_stack
        (c0 ∷ c1 ∷ c2 ∷ c3 ∷ c4 ∷ c5 ∷ c6 ∷ c7 ∷ c8 ∷ c9 ∷ c10 ∷ c11 ∷ c12 ∷ c13 ∷ c14 ∷ c15 ∷ c16
          ∷ c17 ∷ c18 ∷ [])
        h =
      absurd (ground arith)
  filled_stack
        (c0 ∷ c1 ∷ c2 ∷ c3 ∷ c4 ∷ c5 ∷ c6 ∷ c7 ∷ c8 ∷ c9 ∷ c10 ∷ c11 ∷ c12 ∷ c13 ∷ c14 ∷ c15 ∷ c16
          ∷ c17 ∷ c18 ∷ c19 ∷ [])
        h =
      absurd (ground arith)
  filled_stack
        (c0 ∷ c1 ∷ c2 ∷ c3 ∷ c4 ∷ c5 ∷ c6 ∷ c7 ∷ c8 ∷ c9 ∷ c10 ∷ c11 ∷ c12 ∷ c13 ∷ c14 ∷ c15 ∷ c16
          ∷ c17 ∷ c18 ∷ c19 ∷ c20 ∷ [])
        h =
      absurd (ground arith)
  filled_stack
        (c0 ∷ c1 ∷ c2 ∷ c3 ∷ c4 ∷ c5 ∷ c6 ∷ c7 ∷ c8 ∷ c9 ∷ c10 ∷ c11 ∷ c12 ∷ c13 ∷ c14 ∷ c15 ∷ c16
          ∷ c17 ∷ c18 ∷ c19 ∷ c20 ∷ c21 ∷ [])
        h =
      absurd (ground arith)
  filled_stack
        (c0 ∷ c1 ∷ c2 ∷ c3 ∷ c4 ∷ c5 ∷ c6 ∷ c7 ∷ c8 ∷ c9 ∷ c10 ∷ c11 ∷ c12 ∷ c13 ∷ c14 ∷ c15 ∷ c16
          ∷ c17 ∷ c18 ∷ c19 ∷ c20 ∷ c21 ∷ c22 ∷ [])
        h =
      absurd (ground arith)
  filled_stack
        (c0 ∷ c1 ∷ c2 ∷ c3 ∷ c4 ∷ c5 ∷ c6 ∷ c7 ∷ c8 ∷ c9 ∷ c10 ∷ c11 ∷ c12 ∷ c13 ∷ c14 ∷ c15 ∷ c16
          ∷ c17 ∷ c18 ∷ c19 ∷ c20 ∷ c21 ∷ c22 ∷ c23 ∷ [])
        h =
      absurd (ground arith)
  filled_stack
        (c0 ∷ c1 ∷ c2 ∷ c3 ∷ c4 ∷ c5 ∷ c6 ∷ c7 ∷ c8 ∷ c9 ∷ c10 ∷ c11 ∷ c12 ∷ c13 ∷ c14 ∷ c15 ∷ c16
          ∷ c17 ∷ c18 ∷ c19 ∷ c20 ∷ c21 ∷ c22 ∷ c23 ∷ c24 ∷ [])
        h =
      absurd (ground arith)
  filled_stack
        (c0 ∷ c1 ∷ c2 ∷ c3 ∷ c4 ∷ c5 ∷ c6 ∷ c7 ∷ c8 ∷ c9 ∷ c10 ∷ c11 ∷ c12 ∷ c13 ∷ c14 ∷ c15 ∷ c16
          ∷ c17 ∷ c18 ∷ c19 ∷ c20 ∷ c21 ∷ c22 ∷ c23 ∷ c24 ∷ c25 ∷ [])
        h =
      absurd (ground arith)
  filled_stack
        (c0 ∷ c1 ∷ c2 ∷ c3 ∷ c4 ∷ c5 ∷ c6 ∷ c7 ∷ c8 ∷ c9 ∷ c10 ∷ c11 ∷ c12 ∷ c13 ∷ c14 ∷ c15 ∷ c16
          ∷ c17 ∷ c18 ∷ c19 ∷ c20 ∷ c21 ∷ c22 ∷ c23 ∷ c24 ∷ c25 ∷ c26 ∷ [])
        h =
      absurd (ground arith)
  filled_stack
        (c0 ∷ c1 ∷ c2 ∷ c3 ∷ c4 ∷ c5 ∷ c6 ∷ c7 ∷ c8 ∷ c9 ∷ c10 ∷ c11 ∷ c12 ∷ c13 ∷ c14 ∷ c15 ∷ c16
          ∷ c17 ∷ c18 ∷ c19 ∷ c20 ∷ c21 ∷ c22 ∷ c23 ∷ c24 ∷ c25 ∷ c26 ∷ c27 ∷ rest)
        h =
      refl

known_bytes :
    (random stack : Bytes) (lifetime : ℕ)
    → length random ≡ 12
    → 28 ≤ length stack
    → take 8 (drop 8 (plain random stack lifetime)) ≡ lifetime_attribute lifetime
known_bytes [] stack lifetime e h = absurd (ground arith)
known_bytes (r0 ∷ []) stack lifetime e h = absurd (ground arith)
known_bytes (r0 ∷ r1 ∷ []) stack lifetime e h = absurd (ground arith)
known_bytes (r0 ∷ r1 ∷ r2 ∷ []) stack lifetime e h = absurd (ground arith)
known_bytes (r0 ∷ r1 ∷ r2 ∷ r3 ∷ []) stack lifetime e h = absurd (ground arith)
known_bytes (r0 ∷ r1 ∷ r2 ∷ r3 ∷ r4 ∷ []) stack lifetime e h = absurd (ground arith)
known_bytes (r0 ∷ r1 ∷ r2 ∷ r3 ∷ r4 ∷ r5 ∷ []) stack lifetime e h = absurd (ground arith)
known_bytes (r0 ∷ r1 ∷ r2 ∷ r3 ∷ r4 ∷ r5 ∷ r6 ∷ []) stack lifetime e h = absurd (ground arith)
known_bytes (r0 ∷ r1 ∷ r2 ∷ r3 ∷ r4 ∷ r5 ∷ r6 ∷ r7 ∷ []) stack lifetime e h = absurd (ground arith)
known_bytes (r0 ∷ r1 ∷ r2 ∷ r3 ∷ r4 ∷ r5 ∷ r6 ∷ r7 ∷ r8 ∷ []) stack lifetime e h =
    absurd (ground arith)
known_bytes (r0 ∷ r1 ∷ r2 ∷ r3 ∷ r4 ∷ r5 ∷ r6 ∷ r7 ∷ r8 ∷ r9 ∷ []) stack lifetime e h =
    absurd (ground arith)
known_bytes (r0 ∷ r1 ∷ r2 ∷ r3 ∷ r4 ∷ r5 ∷ r6 ∷ r7 ∷ r8 ∷ r9 ∷ r10 ∷ []) stack lifetime e h =
    absurd (ground arith)
known_bytes (r0 ∷ r1 ∷ r2 ∷ r3 ∷ r4 ∷ r5 ∷ r6 ∷ r7 ∷ r8 ∷ r9 ∷ r10 ∷ r11 ∷ []) stack lifetime e h =
    filled_stack r0 r1 r2 r3 r4 r5 r6 r7 r8 r9 r10 r11 lifetime stack h
known_bytes (r0 ∷ r1 ∷ r2 ∷ r3 ∷ r4 ∷ r5 ∷ r6 ∷ r7 ∷ r8 ∷ r9 ∷ r10 ∷ r11 ∷ r12 ∷ more) stack
      lifetime e h =
    absurd (ground arith)

-- Without a name of a user, the first eight of the twelve bytes of the transaction's number in a request for an allocation, which are to be
-- random, are those of the attribute for the lifetime.
pub known_id :
    (random stack : Bytes) (s : TurnServerConfig)
    → length random ≡ 12
    → 28 ≤ length stack
    → has_username s ≡ false
    → take 8 (drop 8 (turn_build_allocate_request random stack s)) ≡ lifetime_attribute s.lifetime
unfolding turn_build_allocate_request
known_id random stack s e h anonymous =
    ap (λ t. take 8 (drop 8 t)) (if-false (has_username s) _ _ anonymous)
    ∙ known_bytes random stack s.lifetime e h
