-- ===== src/CString/Memory.antt =====
-- Reading and writing C arrays, and taking a mutex: how a run of the code can end.
use orcashi.Prelude.{
  ◌≡◌, ap, ℕ, zero, suc, ◌+◌, Bool, true, false, Option, none, some, Code, ok, err, [], ◌∷◌, ltb,
  leb, lt→ltb, refl, if-true, if-false, le→leb, gt→leb, ◌≤◌, ◌<◌, if◌then◌else◌, length, set, take,
  drop,
}
use orcashi.CString.Text.{Bytes}

-- A run comes to an end, waits for ever for a mutex, or reads or writes outside of an array, where
-- C says nothing of what follows.
pub data Run {ℓ} (A : Type ℓ) : Type ℓ where
  done : A → Run A
  blocked : Run A
  overrun : Run A

infixl 5 ◌>>=◌
abbrev pub ◌>>=◌ {ℓ κ} : {A : Type ℓ} {B : Type κ} → Run A → (A → Run B) → Run B
done a >>= f = f a
blocked >>= f = blocked
overrun >>= f = overrun

pub bind-done {ℓ κ} :
    {A : Type ℓ} {B : Type κ} (r : Run A) (a : A) (f : A → Run B) → r ≡ done a → (r >>= f) ≡ f a
bind-done r a f e = ap (λ r. r >>= f) e

pub bind_assoc {ℓ κ ι} :
    {A : Type ℓ} {B : Type κ} {C : Type ι} (r : Run A) (f : A → Run B) (g : B → Run C)
    → ((r >>= f) >>= g) ≡ (r >>= λ a. f a >>= g)
bind_assoc (done a) f g = refl
bind_assoc blocked f g = refl
bind_assoc overrun f g = refl

-- What holds of the result where the run comes to an end.
unfoldable pub AtEnd {ℓ κ} : {A : Type ℓ} → (A → Type κ) → Run A → Type κ
AtEnd P (done a) = P a
AtEnd P blocked = Unit
AtEnd P overrun = Unit

module _ {ℓ κ} {A : Type ℓ} (P : A → Type κ) where
  pub AtEnd-done : {a : A} → P a → AtEnd P (done a)
  unfolding AtEnd
  AtEnd-done h = h

  pub AtEnd-blocked : AtEnd P blocked
  unfolding AtEnd
  AtEnd-blocked = tt

  pub AtEnd-overrun : AtEnd P overrun
  unfolding AtEnd
  AtEnd-overrun = tt

  pub AtEnd-if : (b : Bool) (r s : Run A) → AtEnd P r → AtEnd P s → AtEnd P (if b then r else s)
  AtEnd-if true r s h k = h
  AtEnd-if false r s h k = k

  pub AtEnd-bind {ι} :
      {B : Type ι} (r : Run B) (f : B → Run A) → ((b : B) → AtEnd P (f b)) → AtEnd P (r >>= f)
  unfolding AtEnd
  AtEnd-bind (done b) f h = h b
  AtEnd-bind blocked f h = tt
  AtEnd-bind overrun f h = tt

  pub AtEnd-option {ι} :
      {B : Type ι} (o : Option B) (r : Run A) (f : B → Run A)
      → AtEnd P r
      → ((b : B) → AtEnd P (f b))
      → AtEnd P (elim o [ none ↦ r | some b ↦ f b ])
  AtEnd-option none r f h k = h
  AtEnd-option (some b) r f h k = k b

  pub AtEnd-code :
      (c : Code) (r s : Run A) → AtEnd P r → AtEnd P s → AtEnd P (elim c [ err ↦ r | ok ↦ s ])
  AtEnd-code err r s h k = h
  AtEnd-code ok r s h k = k

  pub AtEnd-then {ι μ} :
      {B : Type ι} {Q : B → Type μ} (r : Run B) (f : B → Run A)
      → AtEnd Q r
      → ((b : B) → Q b → AtEnd P (f b))
      → AtEnd P (r >>= f)
  unfolding AtEnd
  AtEnd-then (done b) f q h = h b q
  AtEnd-then blocked f q h = tt
  AtEnd-then overrun f q h = tt

-- The run comes to an end, with such a result.
unfoldable pub Returns {ℓ} : {A : Type ℓ} → (A → Type 0) → Run A → Type 0
Returns P (done a) = P a
Returns P blocked = ⊥
Returns P overrun = ⊥

module _ {ℓ} {A : Type ℓ} (P : A → Type 0) where
  pub Returns-done : {a : A} → P a → Returns P (done a)
  unfolding Returns
  Returns-done h = h

  pub Returns-if :
      (b : Bool) (r s : Run A) → Returns P r → Returns P s → Returns P (if b then r else s)
  Returns-if true r s h k = h
  Returns-if false r s h k = k

  pub Returns-option {ι} :
      {B : Type ι} (o : Option B) (r : Run A) (f : B → Run A)
      → Returns P r
      → ((b : B) → Returns P (f b))
      → Returns P (elim o [ none ↦ r | some b ↦ f b ])
  Returns-option none r f h k = h
  Returns-option (some b) r f h k = k b

  pub Returns-then {ι} :
      {B : Type ι} (Q : B → Type 0) (r : Run B) (f : B → Run A)
      → Returns Q r
      → ((b : B) → Q b → Returns P (f b))
      → Returns P (r >>= f)
  unfolding Returns
  Returns-then Q (done b) f q h = h b q
  Returns-then Q blocked f q h = absurd q
  Returns-then Q overrun f q h = absurd q

  -- What holds at the end holds of a run that comes to an end.
  pub AtEnd-Returns : (Q : A → Type 0) (r : Run A) → AtEnd P r → Returns Q r → Returns P r
  unfolding AtEnd Returns
  AtEnd-Returns Q (done a) p q = p
  AtEnd-Returns Q blocked p q = q
  AtEnd-Returns Q overrun p q = q

-- The string at the start of an array: the bytes up to the first NUL.
unfoldable pub c_string : Bytes → Run Bytes
c_string [] = overrun
c_string (zero ∷ s) = done []
c_string (suc c ∷ s) = c_string s >>= λ t. done (suc c ∷ t)

-- `a[n] = '\0'`
unfoldable pub write_nul : ℕ → Bytes → Run Bytes
write_nul n s = if ltb n (length s) then done (set s n 0) else overrun

-- `strcpy` into an array of `size` bytes.
unfoldable pub strcpy : ℕ → Bytes → Run Bytes
strcpy size s = if ltb (length s) size then done s else overrun

pub strcpy_ok : (size : ℕ) (s : Bytes) → length s < size → strcpy size s ≡ done s
unfolding strcpy
strcpy_ok size s e = rw (lt→ltb (length s) size e) refl

-- The `n` bytes of an array from `offset` on.
unfoldable pub read_bytes : ℕ → ℕ → Bytes → Run Bytes
read_bytes offset n s =
    if leb (offset + n) (length s) then done (take n (drop offset s)) else overrun

pub read_bytes_ok :
    (offset n : ℕ) (s : Bytes)
    → offset + n ≤ length s
    → read_bytes offset n s ≡ done (take n (drop offset s))
unfolding read_bytes
read_bytes_ok offset n s h = if-true _ _ _ (le→leb (offset + n) (length s) h)

pub read_bytes_out :
    (offset n : ℕ) (s : Bytes) → length s < offset + n → read_bytes offset n s ≡ overrun
unfolding read_bytes
read_bytes_out offset n s h = if-false _ _ _ (gt→leb (offset + n) (length s) h)
