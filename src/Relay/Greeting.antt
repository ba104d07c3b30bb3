-- ===== src/Relay/Greeting.antt =====
-- The text of a handshake, as the listener of the other side takes it.
use orcashi.Prelude.{
  ℕ, suc, ◌^◌, ◌<◌, ◌≡◌, refl, sym, ap, ◌∙◌, ℤ, pos, false, some, [], ◌∷◌, ◌++◌, append-nil, ◌==◌,
  arith, length, All,
}
use orcashi.CString.Text.{Bytes, codes, str_eq, is_empty}
use orcashi.CString.Number.{
  show_nat, atoi, read_int, read_int-show_nat, digits-AllDigits, AllDigits, digits,
}
use orcashi.CString.Memory.{done, strcpy, strcpy_ok}
use orcashi.P2p.Types.{u32}
use orcashi.P2p.Requests.{IsText}
use orcashi.Relay.Types.{RelayManager, Net}
use orcashi.Relay.Listener.{strtok, skip_colons, until_colon, join, take_tokens, take_handshake}

-- No NUL and no colon.
abbrev pub IsName : Bytes → Type 0
IsName = All (λ c. (0 < c) × ((c == 58) ≡ false))

pub IsName-IsText : (s : Bytes) → IsName s → IsText s
IsName-IsText [] h = tt
IsName-IsText (c ∷ s) ((p, q), h) = (p, IsName-IsText s h)

until_name : (w t : Bytes) → IsName w → until_colon (w ++ (58 ∷ t)) ≡ (w, t)
unfolding until_colon
until_name [] t h = refl
until_name (c ∷ w) t ((p, q), h) = rw (q, until_name w t h) refl

until_end : (w : Bytes) → IsName w → until_colon w ≡ (w, [])
unfolding until_colon
until_end [] h = refl
until_end (c ∷ w) ((p, q), h) = rw (q, until_end w h) refl

strtok_name : (w t : Bytes) → IsName w → is_empty w ≡ false → strtok (w ++ (58 ∷ t)) ≡ some (w, t)
unfolding strtok skip_colons
strtok_name [] t h e = absurd (ground (arith, e))
strtok_name (c ∷ w) t h e = rw h.0.1 (ap some (until_name (c ∷ w) t h))

strtok_end : (w : Bytes) → IsName w → is_empty w ≡ false → strtok w ≡ some (w, [])
unfolding strtok skip_colons
strtok_end [] h e = absurd (ground (arith, e))
strtok_end (c ∷ w) h e = rw h.0.1 (ap some (until_end (c ∷ w) h))

AllDigits-IsName : (s : Bytes) → AllDigits s → IsName s
AllDigits-IsName [] h = tt
AllDigits-IsName (c ∷ s) (d, h) = ((ground arith, ground arith), AllDigits-IsName s h)

pub show_nat-IsName : (n : ℕ) → IsName (show_nat n)
unfolding show_nat
show_nat-IsName n = AllDigits-IsName (digits (suc n) n) (digits-AllDigits (suc n) n)

read_shown : (n : ℕ) → n < 2 ^ 31 → read_int (show_nat n) ≡ some (pos n, [])
read_shown n h = ap read_int (sym (append-nil (show_nat n))) ∙ read_int-show_nat n [] h tt

atoi-show_nat : (n : ℕ) → n < 2 ^ 31 → atoi (show_nat n) ≡ pos n
unfolding atoi
atoi-show_nat n h = rw (atoi, read_shown n h) refl

some_digit : (s : Bytes) (r : ℤ × Bytes) → read_int s ≡ some r → is_empty s ≡ false
unfolding read_int
some_digit [] r h = absurd (ground (arith, h))
some_digit (c ∷ s) r h = refl

pub show_nat_some : (n : ℕ) → n < 2 ^ 31 → is_empty (show_nat n) ≡ false
show_nat_some n h = some_digit (show_nat n) (pos n, []) (read_shown n h)

first_word :
    (net : Net) (ip : Bytes) (port : ℤ) (text rest : Bytes) (m : RelayManager)
    → strtok text ≡ some (codes "RELAY_HANDSHAKE", rest)
    → take_handshake net ip port text m ≡ take_tokens net ip port rest m
unfolding take_handshake str_eq
first_word net ip port text rest m e = rw (take_handshake, e) refl

three_words :
    (net : Net) (ip : Bytes) (port : ℤ) (m : RelayManager) (s1 : Bytes)
    {peer s2 sid s3 from s4 : Bytes}
    → strtok s1 ≡ some (peer, s2)
    → strtok s2 ≡ some (sid, s3)
    → strtok s3 ≡ some (from, s4)
    → strcpy 64 peer ≡ done peer
    → strcpy 64 from ≡ done from
    → take_tokens net ip port s1 m ≡ join net ip port peer (u32 (atoi sid)) m
unfolding take_tokens
three_words net ip port m s1 e1 e2 e3 c1 c2 = rw (take_tokens, e1, c1, e2, e3, c2) refl

module _ (net : Net) (ip : Bytes) (port : ℤ) (peer_id my_id : Bytes) (sid : ℕ) (m : RelayManager)
    (peer : IsName peer_id) (me : IsName my_id) (some_peer : is_empty peer_id ≡ false)
    (some_me : is_empty my_id ≡ false) (peer_fits : length peer_id < 64)
    (me_fits : length my_id < 64) (small : sid < 2 ^ 31) where
  number : u32 (atoi (show_nat sid)) ≡ sid
  unfolding u32
  number = ap u32 (atoi-show_nat sid small) ∙ ground arith

  tokens :
      take_tokens net ip port (peer_id ++ (58 ∷ (show_nat sid ++ (58 ∷ my_id)))) m
      ≡ join net ip port peer_id sid m
  tokens =
      three_words net ip port m _
        (strtok_name peer_id (show_nat sid ++ (58 ∷ my_id)) peer some_peer)
        (strtok_name (show_nat sid) my_id (show_nat-IsName sid) (show_nat_some sid small))
        (strtok_end my_id me some_me) (strcpy_ok 64 peer_id peer_fits) (strcpy_ok 64 my_id me_fits)
      ∙ ap (λ n. join net ip port peer_id n m) number

  pub greeted :
      take_handshake net ip port
        (codes "RELAY_HANDSHAKE:" ++ (peer_id ++ (58 ∷ (show_nat sid ++ (58 ∷ my_id)))))
        m
      ≡ join net ip port peer_id sid m
  greeted =
      first_word net ip port _ (peer_id ++ (58 ∷ (show_nat sid ++ (58 ∷ my_id)))) m (
        strtok_name (codes "RELAY_HANDSHAKE") (peer_id ++ (58 ∷ (show_nat sid ++ (58 ∷ my_id))))
          (ground arith) refl)
      ∙ tokens
