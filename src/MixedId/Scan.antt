-- ===== src/MixedId/Scan.antt =====
-- Four printed numbers are read back, and fit their buffers.
use orcashi.Prelude.{
  ℕ, zero, suc, ◌+◌, ◌*◌, ◌/◌, ◌%◌, ◌^◌, ◌≤◌, ◌<◌, ◌≡◌, refl, sym, ap, ◌∙◌, pos, some, [], ◌∷◌,
  ◌++◌, append-nil, arith, ltb, Bool-cases, inl, inr, length, length-append,
}
use orcashi.CString.Number.{
  digits, digits_small, digits_large, show_nat, read_int, read_int-show_nat, atoi,
}
use orcashi.CString.Address.{dot, read_dot, Ipv4, show_ipv4}
use orcashi.MixedId.Codec.{scan_four, print_four}

-- 10 to the power k, in the form that linear arithmetic reads.
abbrev pub ten_pow : ℕ → ℕ
ten_pow zero = 1
ten_pow (suc k) = 10 * ten_pow k

length-digits : (k fuel n : ℕ) → n < ten_pow (suc k) → length (digits fuel n) ≤ suc k
unfolding digits
length-digits k zero n h = omega arith
length-digits zero (suc fuel) n h = rw (digits_small fuel n (ground arith)) (omega arith)
length-digits (suc k) (suc fuel) n h = elim (Bool-cases (ltb n 10)) [
  | inl small ↦ rw (digits_small fuel n small) (omega arith)
  | inr large ↦
      rw (digits_large fuel n large, length-append (digits fuel (n / 10)) ((b'0' + n % 10) ∷ []))
        (omega (arith, length-digits k fuel (n / 10) (omega arith)))
]

-- A number of at most `k + 1` digits.
pub length-show_nat : (k n : ℕ) → n < ten_pow (suc k) → length (show_nat n) ≤ suc k
unfolding show_nat
length-show_nat k n h = length-digits k (suc n) n h

read_int_last : (n : ℕ) → n < 2 ^ 31 → read_int (show_nat n) ≡ some (pos n, [])
read_int_last n h = ap read_int (sym (append-nil (show_nat n))) ∙ read_int-show_nat n [] h tt

-- Each number below 2^31.
abbrev pub IsSmall : ℕ → ℕ → ℕ → ℕ → Type 0
IsSmall a b c d = (a < 2 ^ 31) × (b < 2 ^ 31) × (c < 2 ^ 31) × (d < 2 ^ 31)

pub scan_four-print_four :
    (a b c d : ℕ)
    → IsSmall a b c d
    → scan_four (print_four (pos a, pos b, pos c, pos d)) ≡ some (pos a, pos b, pos c, pos d)
unfolding scan_four print_four read_dot
scan_four-print_four a b c d (ha, hb, hc, hd) = rw (
  read_int-show_nat a _ ha refl,
  read_int-show_nat b _ hb refl,
  read_int-show_nat c _ hc refl,
  read_int_last d hd,
)

pub atoi-show_nat : (n : ℕ) → n < 2 ^ 31 → atoi (show_nat n) ≡ pos n
unfolding atoi
atoi-show_nat n h = rw (read_int_last n h, atoi)

-- Four numbers of at most three, five, five and five digits make at most 21 characters, and four
-- octets at most 15.
pub length-print_four :
    (j k l m a b c d : ℕ)
    → (a < ten_pow (suc j)) × (b < ten_pow (suc k)) × (c < ten_pow (suc l)) × (d < ten_pow (suc m))
    → length (print_four (pos a, pos b, pos c, pos d)) ≤ j + k + l + m + 7
unfolding print_four
length-print_four j k l m a b c d (ha, hb, hc, hd) = omega (
  arith,
  length-append (show_nat a) (dot ∷ (show_nat b ++ (dot ∷ (show_nat c ++ (dot ∷ show_nat d))))),
  length-append (show_nat b) (dot ∷ (show_nat c ++ (dot ∷ show_nat d))),
  length-append (show_nat c) (dot ∷ show_nat d),
  length-show_nat j a ha,
  length-show_nat k b hb,
  length-show_nat l c hc,
  length-show_nat m d hd,
)

-- The dotted form of an address is that of its four octets.
pub show_ipv4-print_four :
    (a : Ipv4) → show_ipv4 a ≡ print_four (pos a.0, pos a.1, pos a.2, pos a.3)
unfolding show_ipv4 print_four
show_ipv4-print_four a = refl
