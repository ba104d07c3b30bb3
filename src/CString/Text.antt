-- ===== src/CString/Text.antt =====
-- Bytes of a C string, strcmp, and truncation to a buffer of a given size.
use Prim.Native.Char.{code}
use Prim.Native.String.{String}
use orcashi.Prelude.{
  ℕ, zero, suc, ◌-◌, ◌≡◌, refl, ◌↔◌, Bool, true, false, ◌&&◌, ◌||◌, List, [], ◌∷◌, arith, leb, ◌==◌,
  take,
}

abbrev pub Bytes : Type 0
Bytes = List ℕ

-- The bytes of an ASCII literal.
abbrev pub codes : String → Bytes
codes String.[] = []
codes (String.◌∷◌ c s) = code c ∷ codes s

-- `strcmp(a, b) == 0`
unfoldable pub str_eq : Bytes → Bytes → Bool
str_eq [] [] = true
str_eq [] (d ∷ t) = false
str_eq (c ∷ s) [] = false
str_eq (c ∷ s) (d ∷ t) = c == d && str_eq s t

-- `strlen(s) == 0`
abbrev pub is_empty : Bytes → Bool
is_empty [] = true
is_empty (c ∷ s) = false

-- What `snprintf(out, size, …)` keeps of its text (`strncpy` into `size - 1` bytes, too).
abbrev pub fit : ℕ → Bytes → Bytes
fit size s = take (size - 1) s

abbrev pub is_digit : ℕ → Bool
is_digit c = leb b'0' c && leb c b'9'

-- `isspace` in the C locale.
abbrev pub is_space : ℕ → Bool
is_space c = c == 32 || (leb 9 c && leb c 13)

-- What a function of C sees of a text: the bytes up to the first NUL.
unfoldable pub text_of : Bytes → Bytes
text_of [] = []
text_of (zero ∷ s) = []
text_of (suc c ∷ s) = suc c ∷ text_of s

pub str_eq_refl : (s : Bytes) → str_eq s s ≡ true
unfolding str_eq
str_eq_refl [] = refl
str_eq_refl (c ∷ s) = ground (arith, str_eq_refl s)

pub str_eq→≡ : (s t : Bytes) → str_eq s t ≡ true → s ≡ t
unfolding str_eq
str_eq→≡ [] [] h = refl
str_eq→≡ [] (d ∷ t) h = ground arith
str_eq→≡ (c ∷ s) [] h = ground arith
str_eq→≡ (c ∷ s) (d ∷ t) h = ground (arith, str_eq→≡ s t)

pub str_eq_iff : (s t : Bytes) → (str_eq s t ≡ true) ↔ (s ≡ t)
str_eq_iff s t = (str_eq→≡ s t, λ e. ground (arith, str_eq_refl s))
