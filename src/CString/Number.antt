-- ===== src/CString/Number.antt =====
-- Decimal numbers as the C library prints and reads them.
use orcashi.Prelude.{
  ℕ, zero, suc, ◌+◌, ◌-◌, ◌*◌, ◌/◌, ◌%◌, ◌^◌, ◌<◌, min, ◌≡◌, refl, ◌∙◌, ap, inl, inr, Bool, true,
  false, Option, none, some, [], ◌∷◌, ◌++◌, append_assoc, arith, ltb, ◌==◌, if◌then◌else◌, ◌>>=◌, ℤ,
  pos, negsuc, Bool-cases, All, All-append,
}
use orcashi.CString.Text.{Bytes, is_digit, is_space}

-- The digits of `n`, the most significant first; the fuel is above `n`, more than the rounds made.
unfoldable pub digits : ℕ → ℕ → Bytes
digits zero n = []
digits (suc fuel) n = elim (ltb n 10) [
  | true ↦ (b'0' + n) ∷ []
  | false ↦ digits fuel (n / 10) ++ ((b'0' + n % 10) ∷ [])
]

-- `%u`
unfoldable pub show_nat : ℕ → Bytes
unfolding digits
show_nat n = digits (suc n) n

-- `%d` and `%ld`
unfoldable pub show_int : ℤ → Bytes
unfolding show_nat
show_int (pos n) = show_nat n
show_int (negsuc n) = b'-' ∷ show_nat (suc n)

-- The digits at the front, read behind the number `acc`.
unfoldable pub scan_digits : Bytes → ℕ → ℕ × Bytes
scan_digits [] acc = (acc, [])
scan_digits (c ∷ s) acc = if is_digit c then scan_digits s (acc * 10 + (c - b'0')) else (acc, c ∷ s)

unfoldable pub skip_space : Bytes → Bytes
skip_space [] = []
skip_space (c ∷ s) = if is_space c then skip_space s else c ∷ s

-- `(int)strtol(…)` of a sign and a magnitude: strtol stops at the ends of a 64-bit long, and the
-- cast keeps the low 32 bits (what glibc's atoi and %d do where C leaves the value open).
unfoldable pub to_int : Bool → ℕ → ℤ
to_int negative m =
    let low : ℕ =
      if negative then (2 ^ 64 - min m (2 ^ 63)) % 2 ^ 32 else min m (2 ^ 63 - 1) % 2 ^ 32 in
    if ltb low (2 ^ 31) then pos low else negsuc (2 ^ 32 - low - 1)

unfoldable pub read_nat : Bytes → Option (ℕ × Bytes)
unfolding scan_digits
read_nat [] = none
read_nat (c ∷ s) = if is_digit c then some (scan_digits (c ∷ s) 0) else none

unfoldable pub signed_nat : Bytes → Option (Bool × ℕ × Bytes)
unfolding read_nat
signed_nat [] = none
signed_nat (c ∷ s) =
    if c == b'-'
    then (read_nat s >>= λ r. some (true, r.0, r.1))
    else if c == b'+'
    then (read_nat s >>= λ r. some (false, r.0, r.1))
    else (read_nat (c ∷ s) >>= λ r. some (false, r.0, r.1))

-- sscanf's `%d`: the number and the rest of the text.
unfoldable pub read_int : Bytes → Option (ℤ × Bytes)
unfolding signed_nat skip_space to_int
read_int s = signed_nat (skip_space s) >>= λ r. some (to_int r.0 r.1, r.2)

-- `atoi`
unfoldable pub atoi : Bytes → ℤ
unfolding read_int
atoi s = elim (read_int s) [ none ↦ pos 0 | some (v, rest) ↦ v ]

abbrev pub AllDigits : Bytes → Type 0
AllDigits = All (λ c. is_digit c ≡ true)

-- The text does not start with a digit, so that a number before it ends there.
abbrev pub NoDigit : Bytes → Type 0
NoDigit [] = Unit {0}
NoDigit (c ∷ s) = is_digit c ≡ false

-- The two cases of a round.
pub digits_small : (fuel n : ℕ) → ltb n 10 ≡ true → digits (suc fuel) n ≡ (b'0' + n) ∷ []
unfolding digits
digits_small fuel n e = rw (e, digits)

pub digits_large :
    (fuel n : ℕ)
    → ltb n 10 ≡ false
    → digits (suc fuel) n ≡ digits fuel (n / 10) ++ ((b'0' + n % 10) ∷ [])
unfolding digits
digits_large fuel n e = rw (e, digits)

scan-digits :
    (fuel n : ℕ) (rest : Bytes)
    → n < fuel
    → scan_digits (digits fuel n ++ rest) 0 ≡ scan_digits rest n
unfolding scan_digits
scan-digits zero n rest h = absurd (omega arith)
scan-digits (suc fuel) n rest h = elim (Bool-cases (ltb n 10)) [
  | inl small ↦ rw (digits_small fuel n small) (ground arith)
  | inr large ↦
      rw
        (digits_large fuel n large, append_assoc (digits fuel (n / 10)) ((b'0' + n % 10) ∷ []) rest)
        (scan-digits fuel (n / 10) ((b'0' + n % 10) ∷ rest) (ground arith) ∙ ground arith)
]

pub digits-AllDigits : (fuel n : ℕ) → AllDigits (digits fuel n)
unfolding digits
digits-AllDigits zero n = tt
digits-AllDigits (suc fuel) n = elim (Bool-cases (ltb n 10)) [
  | inl small ↦ rw (digits_small fuel n small) (ground arith, tt)
  | inr large ↦
      rw (digits_large fuel n large)
        (All-append _ (digits fuel (n / 10)) _ (digits-AllDigits fuel (n / 10)) (ground arith, tt))
]

-- A number below 2^31 comes through strtol and the cast unchanged.
pub to_int_small : (m : ℕ) → m < 2 ^ 31 → to_int false m ≡ pos m
unfolding to_int
to_int_small m h = ground arith

scan_stop : (rest : Bytes) (n : ℕ) → NoDigit rest → scan_digits rest n ≡ (n, rest)
unfolding scan_digits
scan_stop [] n h = refl
scan_stop (c ∷ s) n h = rw h

read_nat-cons :
    (s : Bytes)
    → (c : ℕ) × (t : Bytes) × (s ≡ c ∷ t) × (is_digit c ≡ true)
    → read_nat s ≡ some (scan_digits s 0)
unfolding read_nat
read_nat-cons s (c, t, e, d) = rw (e, d)

digits_front :
    (fuel n : ℕ) (rest : Bytes)
    → n < fuel
    → (c : ℕ) × (t : Bytes) × (digits fuel n ++ rest ≡ c ∷ t) × (is_digit c ≡ true)
digits_front zero n rest h = absurd (omega arith)
digits_front (suc fuel) n rest h = elim (Bool-cases (ltb n 10)) [
  | inl small ↦ (b'0' + n, rest, rw (digits_small fuel n small), ground arith)
  | inr large ↦
      rw
        (digits_large fuel n large, append_assoc (digits fuel (n / 10)) ((b'0' + n % 10) ∷ []) rest)
        (digits_front fuel (n / 10) ((b'0' + n % 10) ∷ rest) (ground arith))
]

-- A number is read back from its print, up to what follows it.
pub read_nat-show_nat :
    (n : ℕ) (rest : Bytes) → NoDigit rest → read_nat (show_nat n ++ rest) ≡ some (n, rest)
unfolding show_nat
read_nat-show_nat n rest h =
    read_nat-cons _ (digits_front (suc n) n rest (omega arith))
    ∙ ap some (scan-digits (suc n) n rest (omega arith) ∙ scan_stop rest n h)

-- What starts with a digit is read as an unsigned number, with nothing skipped.
read_int-digit :
    (s : Bytes)
    → (c : ℕ) × (t : Bytes) × (s ≡ c ∷ t) × (is_digit c ≡ true)
    → read_int s ≡ (read_nat s >>= λ r. some (to_int false r.0, r.1))
unfolding read_int signed_nat skip_space
read_int-digit s (c, t, e, d) = rw e (ground arith)

pub read_int-show_nat :
    (n : ℕ) (rest : Bytes)
    → n < 2 ^ 31
    → NoDigit rest
    → read_int (show_nat n ++ rest) ≡ some (pos n, rest)
unfolding show_nat
read_int-show_nat n rest small h =
    read_int-digit _ (digits_front (suc n) n rest (omega arith))
    ∙ rw (read_nat-show_nat n rest h, to_int_small n small)
