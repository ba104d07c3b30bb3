-- ===== src/Daemon/Words.antt =====
-- The texts that commands.c sends, as daemon.c takes them apart.
use orcashi.Prelude.{
  ℕ, zero, suc, ◌+◌, ◌-◌, ◌≤◌, ◌<◌, ◌≡◌, refl, ap, ◌∙◌, false, some, List, [], ◌∷◌, ◌++◌, arith,
  length, take, All, take_all, length-append, lt→ltb, le→ltb, ◌==◌,
}
use orcashi.CString.Text.{text_of, Bytes, fit, is_empty}
use orcashi.CString.Memory.{Run, overrun, strcpy_ok}
use orcashi.Daemon.Types.{Daemon, Setting, Reply, split_space}
use orcashi.Daemon.Talk.{copy_id, on_words}
use orcashi.Daemon.Dispatch.{
  run_command, cmd_words, daemon_handle_command, daemon_ipc_handle, answer_of,
}

-- No NUL.
abbrev pub IsText : Bytes → Type 0
IsText = All (λ c. 0 < c)

-- No NUL and no space.
abbrev pub IsWord : Bytes → Type 0
IsWord = All (λ c. (0 < c) × ((c == 32) ≡ false))

pub IsWord-IsText : (s : Bytes) → IsWord s → IsText s
IsWord-IsText [] h = tt
IsWord-IsText (c ∷ s) ((p, q), h) = (p, IsWord-IsText s h)

minus_one : (n : ℕ) → suc n - 1 - 0 ≡ n
minus_one n = omega arith

minus_suc : (n m : ℕ) → suc n - 1 - suc m ≡ n - 1 - m
minus_suc n m = omega arith

-- The start of a text that goes on behind its first word.
pub take-word :
    (n : ℕ) (w t : Bytes) (c : ℕ)
    → length w < n
    → take n (w ++ (c ∷ t)) ≡ w ++ (c ∷ take (n - 1 - length w) t)
take-word zero w t c h = ground arith
take-word (suc n) [] t c h = rw (minus_one n) refl
take-word (suc n) (x ∷ w) t c h =
    rw (minus_suc n (length w)) (ap (λ t. x ∷ t) (take-word n w t c (ground arith)))

pub All-take : {A : Type 0} (P : A → Type 0) (n : ℕ) (xs : List A) → All P xs → All P (take n xs)
All-take P zero xs h = tt
All-take P (suc n) [] h = tt
All-take P (suc n) (x ∷ xs) (p, h) = (p, All-take P n xs h)

text_of_text : (s : Bytes) → IsText s → text_of s ≡ s
unfolding text_of
text_of_text [] h = refl
text_of_text (zero ∷ s) (p, h) = ground arith
text_of_text (suc c ∷ s) (p, h) = ap (λ t. suc c ∷ t) (text_of_text s h)

split_space_word : (w t : Bytes) → IsWord w → split_space (w ++ (32 ∷ t)) ≡ some (w, t)
unfolding split_space
split_space_word [] t h = refl
split_space_word (c ∷ w) t ((p, q), h) = rw (q, split_space_word w t h) refl

not_empty : (s t : Bytes) (c : ℕ) → is_empty (s ++ (c ∷ t)) ≡ false
not_empty [] t c = refl
not_empty (d ∷ s) t c = refl

pub IsText-append : (s t : Bytes) → IsText s → IsText t → IsText (s ++ (32 ∷ t))
IsText-append [] t h k = (ground arith, k)
IsText-append (c ∷ s) t (p, h) k = (p, IsText-append s t h k)

module _ (name args : Bytes) (w : IsWord name) (t : IsText args)
    (fits : length name + length args ≤ 510) where
  short : length (name ++ (32 ∷ args)) ≤ 511
  short = ground (arith, length-append name (32 ∷ args))

  read_whole : text_of (fit 4096 (name ++ (32 ∷ args))) ≡ name ++ (32 ∷ args)
  read_whole =
      ap text_of (take_all 4095 (name ++ (32 ∷ args)) (ground (arith, short)))
      ∙ text_of_text (name ++ (32 ∷ args)) (IsText-append name args (IsWord-IsText name w) t)

  words : cmd_words (fit 512 (name ++ (32 ∷ args))) ≡ (name, some args)
  unfolding cmd_words
  words =
      rw (take_all 511 (name ++ (32 ∷ args)) short, cmd_words, split_space_word name args w) refl

  -- A text that fits, without a NUL, reaches the function of the command that its first word names.
  pub handle_text :
      (s : Setting) (unset : Bytes) (d : Daemon)
      → daemon_ipc_handle s unset (name ++ (32 ∷ args)) d
        ≡ answer_of (run_command s unset name (some args) d)
  unfolding daemon_ipc_handle daemon_handle_command
  handle_text s unset d = rw (not_empty name args 32, read_whole, words) refl

left_over : (n m : ℕ) → 511 - 1 - n - 1 - m ≡ 509 - n - m
left_over n m = omega arith

-- A command of a name, an identifier and a message, as much of it as is sent.
pub cut :
    (name id input : Bytes)
    → length name + length id ≤ 509
    → fit 512 (name ++ (32 ∷ (id ++ (32 ∷ input))))
      ≡ name ++ (32 ∷ (id ++ (32 ∷ take (509 - length name - length id) input)))
cut name id input h =
    take-word 511 name (id ++ (32 ∷ input)) 32 (ground arith)
    ∙ ap (λ t. name ++ (32 ∷ t))
        (take-word (511 - 1 - length name) id input 32 (ground arith)
          ∙ ap (λ k. id ++ (32 ∷ take k input)) (left_over (length name) (length id)))

module _ (name id text : Bytes) (f : Bytes → Bytes → Daemon → Run (Reply × Daemon)) (d : Daemon)
    (w : IsWord id) where
  pub two_words :
      length id < 64
      → length text < 4096
      → on_words name (some (id ++ (32 ∷ text))) f d ≡ f id text d
  unfolding on_words copy_id
  two_words h k =
      rw
        (
          on_words,
          split_space_word id text w,
          copy_id,
          lt→ltb (length id) 64 h,
          strcpy_ok 4096 text k,
        )
        refl

  pub long_word : 64 ≤ length id → on_words name (some (id ++ (32 ∷ text))) f d ≡ overrun
  unfolding on_words copy_id
  long_word h = rw (on_words, split_space_word id text w, copy_id, le→ltb (length id) 64 h) refl
