-- ===== src/State/Ids.antt =====
-- Peer ids in state_manager.c: `normalize_id` drops the brackets of "<7>", and `is_same_id`
-- compares two ids by what is left.
use orcashi.Prelude.{
  ℕ, zero, suc, ◌≤◌, ◌≡◌, refl, ap, ◌∙◌, ◌↔◌, Bool, true, false, ◌||◌, [], ◌∷◌, arith, ◌==◌, length,
  take, take_all, All, Bool-cases, inl, inr,
}
use orcashi.CString.Text.{Bytes, str_eq, str_eq_iff, str_eq_refl}

abbrev pub is_bracket : ℕ → Bool
is_bracket c = c == b'<' || c == b'>'

-- The copying loop; the first argument is how many bytes of the output are still free.
unfoldable pub strip : ℕ → Bytes → Bytes
strip zero s = []
strip (suc room) [] = []
strip (suc room) (c ∷ s) = elim (is_bracket c) [
  | true ↦ strip (suc room) s
  | false ↦ c ∷ strip room s
]

-- `normalize_id` into a buffer of 64 bytes, one of which is the terminating NUL.
unfoldable pub normalize_id : Bytes → Bytes
unfolding strip
normalize_id s = strip 63 s

unfoldable pub is_same_id : Bytes → Bytes → Bool
unfolding normalize_id str_eq
is_same_id a b = str_eq (normalize_id a) (normalize_id b)

-- What `normalize_id` leaves: at most 63 bytes and no bracket.
abbrev pub IsNormal : Bytes → Type 0
IsNormal s = (length s ≤ 63) × All (λ c. is_bracket c ≡ false) s

strip_bracket :
    (room c : ℕ) (s : Bytes) → is_bracket c ≡ true → strip (suc room) (c ∷ s) ≡ strip (suc room) s
unfolding strip
strip_bracket room c s e = rw (e, strip)

strip_other :
    (room c : ℕ) (s : Bytes) → is_bracket c ≡ false → strip (suc room) (c ∷ s) ≡ c ∷ strip room s
unfolding strip
strip_other room c s e = rw (e, strip)

strip-clean :
    (room : ℕ) (s : Bytes)
    → (length (strip room s) ≤ room) × All (λ c. is_bracket c ≡ false) (strip room s)
unfolding strip
strip-clean zero s = (omega arith, tt)
strip-clean (suc room) [] = (omega arith, tt)
strip-clean (suc room) (c ∷ s) = elim (Bool-cases (is_bracket c)) [
  | inl e ↦ rw (strip_bracket room c s e) (strip-clean (suc room) s)
  | inr e ↦
      rw (strip_other room c s e)
        (let (short, clean) = strip-clean room s in (omega arith, (e, clean)))
]

-- Text with no bracket is only cut off.
strip-take : (room : ℕ) (s : Bytes) → All (λ c. is_bracket c ≡ false) s → strip room s ≡ take room s
unfolding strip
strip-take zero s h = refl
strip-take (suc room) [] h = refl
strip-take (suc room) (c ∷ s) (e, h) =
    rw (strip_other room c s e) (ap (◌∷◌ c) (strip-take room s h))

pub normalize_id-IsNormal : (s : Bytes) → IsNormal (normalize_id s)
unfolding normalize_id
normalize_id-IsNormal s = strip-clean 63 s

pub normalize_id_of_normal : (s : Bytes) → IsNormal s → normalize_id s ≡ s
unfolding normalize_id
normalize_id_of_normal s (short, clean) = strip-take 63 s clean ∙ take_all 63 s short

-- Normalising twice is normalising once.
pub normalize_id_idem : (s : Bytes) → normalize_id (normalize_id s) ≡ normalize_id s
normalize_id_idem s = normalize_id_of_normal _ (normalize_id-IsNormal s)

pub is_same_id_iff : (a b : Bytes) → (is_same_id a b ≡ true) ↔ (normalize_id a ≡ normalize_id b)
unfolding is_same_id
is_same_id_iff a b = str_eq_iff (normalize_id a) (normalize_id b)

-- Sameness is an equivalence: what is the same as `a` is the same as its equals.
pub is_same_id_congr : (a b c : Bytes) → is_same_id a b ≡ true → is_same_id a c ≡ is_same_id b c
unfolding is_same_id
is_same_id_congr a b c h = ap (λ n. str_eq n (normalize_id c)) ((is_same_id_iff a b).0 h)

pub is_same_id_sym : (a b : Bytes) → is_same_id a b ≡ is_same_id b a
unfolding is_same_id
is_same_id_sym a b = grind (
  arith,
  str_eq_iff (normalize_id a) (normalize_id b),
  str_eq_iff (normalize_id b) (normalize_id a),
)

pub is_same_id-normalize : (a b : Bytes) → is_same_id a (normalize_id b) ≡ is_same_id a b
unfolding is_same_id
is_same_id-normalize a b = ap (str_eq (normalize_id a)) (normalize_id_idem b)

pub is_same_id_refl : (a : Bytes) → is_same_id a a ≡ true
unfolding is_same_id
is_same_id_refl a = str_eq_refl (normalize_id a)
