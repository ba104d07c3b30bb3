-- ===== src/CString/Address.antt =====
-- `inet_pton(AF_INET, …)`: four decimal octets of at most 255, joined by dots, none written with a
-- leading zero (glibc's reading), and nothing behind the last.
use orcashi.Prelude.{
  ℕ, suc, ◌+◌, ◌-◌, ◌*◌, ◌/◌, ◌%◌, ◌<◌, ◌≡◌, refl, ◌||◌, Option, none, some, [], ◌∷◌, ◌++◌, arith,
  ltb, ◌==◌, if◌then◌else◌, ◌>>=◌, inl, inr, Bool-cases, append_assoc, ◌∙◌, zero, sym, ap,
  append-nil,
}
use orcashi.CString.Text.{Bytes, is_digit}
use orcashi.CString.Number.{digits, digits_small, digits_large, show_nat, NoDigit}

abbrev pub dot : ℕ
dot = b'.'

-- The digits of an octet behind its first, whose value so far is `acc`.
unfoldable pub octet_rest : Bytes → ℕ → Option (ℕ × Bytes)
octet_rest [] acc = some (acc, [])
octet_rest (c ∷ s) acc =
    if is_digit c
    then (if acc == 0 || ltb 255 (acc * 10 + (c - b'0'))
        then none
        else octet_rest s (acc * 10 + (c - b'0')))
    else some (acc, c ∷ s)

unfoldable pub read_octet : Bytes → Option (ℕ × Bytes)
unfolding octet_rest
read_octet [] = none
read_octet (c ∷ s) = if is_digit c then octet_rest s (c - b'0') else none

unfoldable pub read_dot : Bytes → Option Bytes
read_dot [] = none
read_dot (c ∷ s) = if c == dot then some s else none

abbrev pub Ipv4 : Type 0
Ipv4 = ℕ × ℕ × ℕ × ℕ

abbrev pub at_end : Ipv4 → Bytes → Option Ipv4
at_end a [] = some a
at_end a (c ∷ s) = none

-- The four octets, or `none` where inet_pton does not return 1.
unfoldable pub inet_pton : Bytes → Option Ipv4
unfolding read_octet read_dot
inet_pton s = do
  (a, s1) ← read_octet s
  s2 ← read_dot s1
  (b, s3) ← read_octet s2
  s4 ← read_dot s3
  (c, s5) ← read_octet s4
  s6 ← read_dot s5
  (d, s7) ← read_octet s6
  at_end (a, b, c, d) s7

-- The dotted form of an address, as `"%d.%d.%d.%d"` prints it.
unfoldable pub show_ipv4 : Ipv4 → Bytes
unfolding show_nat
show_ipv4 (a, b, c, d) =
    show_nat a ++ (dot ∷ (show_nat b ++ (dot ∷ (show_nat c ++ (dot ∷ show_nat d)))))

abbrev pub IsIpv4 : Ipv4 → Type 0
IsIpv4 (a, b, c, d) = (a < 256) × (b < 256) × (c < 256) × (d < 256)

octet_stop : (rest : Bytes) (acc : ℕ) → NoDigit rest → octet_rest rest acc ≡ some (acc, rest)
unfolding octet_rest
octet_stop [] acc h = refl
octet_stop (c ∷ s) acc h = rw h

-- The front of a print is read up to what follows it.
read_octet-digits :
    (fuel n : ℕ) (rest : Bytes)
    → n < fuel
    → n < 256
    → read_octet (digits fuel n ++ rest) ≡ octet_rest rest n
unfolding read_octet
read_octet-digits zero n rest h k = absurd (omega arith)
read_octet-digits (suc fuel) n rest h k = elim (Bool-cases (ltb n 10)) [
  | inl small ↦ rw (digits_small fuel n small) (ground arith)
  | inr large ↦
      rw
        (digits_large fuel n large, append_assoc (digits fuel (n / 10)) ((b'0' + n % 10) ∷ []) rest)
        (read_octet-digits fuel (n / 10) ((b'0' + n % 10) ∷ rest) (ground arith) (omega arith)
          ∙ ground arith)
]

pub read_octet-show_nat :
    (n : ℕ) (rest : Bytes)
    → n < 256
    → NoDigit rest
    → read_octet (show_nat n ++ rest) ≡ some (n, rest)
unfolding show_nat
read_octet-show_nat n rest k h =
    read_octet-digits (suc n) n rest (omega arith) k ∙ octet_stop rest n h

read_octet_last : (n : ℕ) → n < 256 → read_octet (show_nat n) ≡ some (n, [])
read_octet_last n k = ap read_octet (sym (append-nil (show_nat n))) ∙ read_octet-show_nat n [] k tt

-- The dotted form of an address is read back as that address.
pub inet_pton-show_ipv4 : (a : Ipv4) → IsIpv4 a → inet_pton (show_ipv4 a) ≡ some a
unfolding inet_pton show_ipv4
inet_pton-show_ipv4 (a, b, c, d) (ha, hb, hc, hd) = rw (
  read_octet-show_nat a _ ha refl,
  read_octet-show_nat b _ hb refl,
  read_octet-show_nat c _ hc refl,
  read_octet_last d hd,
)
