-- ===== src/Relay/Joining.antt =====
-- A handshake, from the text that one side sends to the session that the listener of the other side adds.
use orcashi.Prelude.{
  ℕ, zero, suc, ◌+◌, ◌/◌, ◌%◌, ◌^◌, ◌≤◌, ◌<◌, ◌≡◌, ◌≢◌, refl, sym, ap, ◌∙◌, ℤ, Bool, true, false,
  some, [], ◌∷◌, ◌++◌, ◌==◌, arith, ltb, length, length-append, take_all, All-append, set,
  get_or-set_self, get_or-set_ne, length-set, if◌then◌else◌, Bool-cases, inl, inr, le→ltb, gt→leb,
  subst, append_assoc,
}
use orcashi.CString.Text.{Bytes, codes, is_empty}
use orcashi.CString.Number.{show_nat, digits, digits_small, digits_large}
use orcashi.CString.Memory.{done, strcpy_ok, c_string}
use orcashi.P2p.Requests.{IsText, c_string-text}
use orcashi.Relay.Types.{RelayManager, Net, zero_session, relay_max_peers}
use orcashi.Relay.Table.{session_at, put_session, fresh_session, relay_add_session}
use orcashi.Relay.Packet.{RelayPacket, read_packet, relay_magic}
use orcashi.Relay.Calls.{handshake_text, starts_with}
use orcashi.Relay.Listener.{joined, ok_text, join, take_handshake, relay_listen}
use orcashi.Relay.Keeps.{IsRelay}
use orcashi.Relay.Greeting.{IsName, IsName-IsText, show_nat-IsName, show_nat_some, greeted}

-- The number has at most `k` digits.
abbrev HasDigits : ℕ → ℕ → Type 0
HasDigits zero n = n < 1
HasDigits (suc k) n = HasDigits k (n / 10)

length-digits : (fuel n k : ℕ) → HasDigits (suc k) n → length (digits fuel n) ≤ suc k
unfolding digits
length-digits zero n k h = omega arith
length-digits (suc fuel) n zero h = elim (Bool-cases (ltb n 10)) [
  | inl small ↦ rw (digits_small fuel n small) (omega arith)
  | inr large ↦ absurd (ground arith)
]
length-digits (suc fuel) n (suc k) h = elim (Bool-cases (ltb n 10)) [
  | inl small ↦ rw (digits_small fuel n small) (omega arith)
  | inr large ↦ rw (digits_large fuel n large) (
      ground (
        arith,
        length-append (digits fuel (n / 10)) ((b'0' + n % 10) ∷ []),
        length-digits fuel (n / 10) k h,
      ))
]

length-show_nat : (n : ℕ) → n < 2 ^ 31 → length (show_nat n) ≤ 10
unfolding show_nat
length-show_nat n h = length-digits (suc n) n 9 (omega arith)

-- What `RELAY_HANDSHAKE:` starts is no packet.
greeting_header :
    (t : Bytes)
    → 6 ≤ length t
    → (r : RelayPacket × Bytes) × (read_packet (codes "RELAY_HANDSHAKE:" ++ t) ≡ some r)
      × ((r.0.magic == relay_magic) ≡ false)
unfolding read_packet
greeting_header [] h = absurd (ground arith)
greeting_header (b0 ∷ []) h = absurd (ground arith)
greeting_header (b0 ∷ b1 ∷ []) h = absurd (ground arith)
greeting_header (b0 ∷ b1 ∷ b2 ∷ []) h = absurd (ground arith)
greeting_header (b0 ∷ b1 ∷ b2 ∷ b3 ∷ []) h = absurd (ground arith)
greeting_header (b0 ∷ b1 ∷ b2 ∷ b3 ∷ b4 ∷ []) h = absurd (ground arith)
greeting_header (b0 ∷ b1 ∷ b2 ∷ b3 ∷ b4 ∷ b5 ∷ rest) h = (_, refl, refl)

listen_text :
    (net : Net) (ip : Bytes) (port : ℤ) (n : ℕ) (buffer text : Bytes) (m : RelayManager)
    (r : RelayPacket × Bytes)
    → 24 ≤ n
    → read_packet buffer ≡ some r
    → (r.0.magic == relay_magic) ≡ false
    → starts_with (codes "RELAY_HANDSHAKE") buffer ≡ true
    → c_string buffer ≡ done text
    → relay_listen net ip port n buffer m ≡ take_handshake net ip port text m
unfolding relay_listen
listen_text net ip port n buffer text m r h e other start c =
    rw (relay_listen, le→ltb n 24 h, e, other, start, c) refl

-- The table behind a handshake that is taken.
abbrev pub Joins : Net → Bytes → ℤ → Bytes → ℕ → RelayManager → RelayManager → Type 0
Joins net ip port peer_id sid m m' =
    (m'.count ≡ m.count + 1)
    × (session_at m' m.count ≡ joined net sid ip port (fresh_session net peer_id))
    × ((i : ℕ) → i ≢ m.count → session_at m' i ≡ session_at m i)
    × (m'.sent ≡ (if net.sends then m.sent ++ (((ip, port), ok_text sid) ∷ []) else m.sent))

join-Joins :
    (net : Net) (ip : Bytes) (port : ℤ) (peer_id : Bytes) (sid : ℕ) (m : RelayManager)
    → length m.sessions ≡ relay_max_peers
    → m.count < relay_max_peers
    → length peer_id < 64
    → length ip < 16
    → (m' : RelayManager) × (join net ip port peer_id sid m ≡ done m')
      × Joins net ip port peer_id sid m m'
unfolding join relay_add_session
join-Joins net ip port peer_id sid m slots room fits ip_fits = (
  m2,
  rw (gt→leb relay_max_peers m.count room, strcpy_ok 64 peer_id fits, strcpy_ok 16 ip ip_fits) refl,
  (
    refl,
    get_or-set_self m1.sessions m.count _ zero_session
          (ground (arith, length-set m.sessions m.count (fresh_session net peer_id)))
        ∙ ap (joined net sid ip port)
            (get_or-set_self m.sessions m.count _ zero_session (ground arith)),
    λ i other.
        get_or-set_ne m1.sessions _ zero_session (λ e. other (sym e))
        ∙ get_or-set_ne m.sessions _ zero_session (λ e. other (sym e)),
    refl,
  ),
)
  where
    m1 : RelayManager
    m1 = record m {
      sessions = set m.sessions m.count (fresh_session net peer_id);
      count = m.count + 1;
    }

    m2 : RelayManager
    m2 = record (put_session m1 m.count (joined net sid ip port (session_at m1 m.count))) {
      sent = if net.sends then m.sent ++ (((ip, port), ok_text sid) ∷ []) else m.sent;
    }

some_length : (s : Bytes) → is_empty s ≡ false → 1 ≤ length s
some_length [] h = absurd (ground (arith, h))
some_length (c ∷ s) h = omega arith

module _ (net : Net) (ip : Bytes) (port : ℤ) (n sid : ℕ) (peer_id my_id rest : Bytes)
    (m : RelayManager) where
  words : Bytes
  words = peer_id ++ (58 ∷ (show_nat sid ++ (58 ∷ my_id)))

  length-words : length words ≡ length peer_id + (length (show_nat sid) + (length my_id + 2))
  unfolding words
  length-words = ground (
    arith,
    length-append peer_id (58 ∷ (show_nat sid ++ (58 ∷ my_id))),
    length-append (show_nat sid) (58 ∷ my_id),
  )

  whole_text :
      length peer_id < 64
      → length my_id < 64
      → sid < 2 ^ 31
      → handshake_text peer_id sid my_id ≡ codes "RELAY_HANDSHAKE:" ++ words
  unfolding handshake_text words
  whole_text peer_fits me_fits small =
      take_all 511 (codes "RELAY_HANDSHAKE:" ++ words)
        (ground (arith, length-words, length-show_nat sid small))

  words-IsText : IsName peer_id → IsName my_id → IsText words
  unfolding words
  words-IsText peer me = All-append _ peer_id _ (IsName-IsText peer_id peer) (
    ground arith,
    All-append _ (show_nat sid) _ (IsName-IsText (show_nat sid) (show_nat-IsName sid))
        (ground arith, IsName-IsText my_id me),
  )

  heard :
      IsName peer_id
      → IsName my_id
      → 5 ≤ length words
      → 24 ≤ n
      → relay_listen net ip port n ((codes "RELAY_HANDSHAKE:" ++ words) ++ (0 ∷ rest)) m
        ≡ take_handshake net ip port (codes "RELAY_HANDSHAKE:" ++ words) m
  unfolding starts_with
  heard peer me long h =
      let (r, e, other) =
        greeting_header (words ++ (0 ∷ rest)) (ground (arith, length-append words (0 ∷ rest))) in
      listen_text net ip port n _ (codes "RELAY_HANDSHAKE:" ++ words) m r h e other refl (
        c_string-text (codes "RELAY_HANDSHAKE:" ++ words) rest
          (All-append _ (codes "RELAY_HANDSHAKE:") words (ground arith) (words-IsText peer me)))

  -- The text of a handshake with a NUL behind it, from which at least 24 bytes are received.
  heard_whole :
      IsName peer_id
      → IsName my_id
      → is_empty peer_id ≡ false
      → is_empty my_id ≡ false
      → length peer_id < 64
      → length my_id < 64
      → length ip < 16
      → sid < 2 ^ 31
      → 24 ≤ n
      → IsRelay m
      → m.count < relay_max_peers
      → (m' : RelayManager) × (relay_listen net ip port n
            (handshake_text peer_id sid my_id ++ (0 ∷ rest))
            m
          ≡ done m')
        × Joins net ip port peer_id sid m m'
  unfolding words
  heard_whole peer me some_peer some_me peer_fits me_fits ip_fits small h v room =
      let (m', e, joins) = join-Joins net ip port peer_id sid m v.slots room peer_fits ip_fits in
      (
        m',
        ap (λ t. relay_listen net ip port n (t ++ (0 ∷ rest)) m)
              (whole_text peer_fits me_fits small)
            ∙ heard peer me
                (ground (
                  arith,
                  length-words,
                  some_length peer_id some_peer,
                  some_length my_id some_me,
                  some_length (show_nat sid) (show_nat_some sid small),
                ))
                h
            ∙ greeted_words
            ∙ e,
        joins,
      )
    where
      greeted_words :
          take_handshake net ip port (codes "RELAY_HANDSHAKE:" ++ words) m
          ≡ join net ip port peer_id sid m
      greeted_words =
          greeted net ip port peer_id my_id sid m peer me some_peer some_me peer_fits me_fits small

relay_listen-short :
    (net : Net) (ip : Bytes) (port : ℤ) (n : ℕ) (buffer : Bytes) (m : RelayManager)
    → ltb n 24 ≡ true
    → relay_listen net ip port n buffer m ≡ done m
unfolding relay_listen
relay_listen-short net ip port n buffer m e = rw e refl

-- What comes of a handshake: nothing where the text is shorter than the header of a packet.
abbrev pub Heard : Bool → Net → Bytes → ℤ → Bytes → ℕ → RelayManager → RelayManager → Type 0
Heard true net ip port peer_id sid m m' = m' ≡ m
Heard false net ip port peer_id sid m m' = Joins net ip port peer_id sid m m'

IsName-append : (s t : Bytes) → IsName s → IsName t → IsName (s ++ t)
IsName-append s t = All-append _ s t

-- A caller sends the text of a handshake for a session with a number below 2^31, from a peer to a
-- peer with names of 1 to 63 bytes without a colon or a NUL. The sender sends no NUL, and the
-- listener writes none: what stands in its buffer behind the text, from earlier, is up to the next
-- NUL taken for the end of the last name; it has no colon, and that name then still has fewer than 64
-- bytes. The listener's table is as it should be with room for a session, and the text of the caller's
-- address has fewer than 16 bytes. Then a text of fewer than 24 bytes changes nothing, and
-- a longer one adds a session at the listener: it has the number of the caller's session, and it is
-- established under the name of the one who is called; the answer is sent, where it can be, and no
-- other session is changed.
pub handshake-Joins :
    (net : Net) (ip : Bytes) (port : ℤ) (sid : ℕ) (peer_id my_id stale rest : Bytes)
    (m : RelayManager)
    → IsName peer_id
    → IsName my_id
    → IsName stale
    → is_empty peer_id ≡ false
    → is_empty my_id ≡ false
    → length peer_id < 64
    → length my_id + length stale < 64
    → length ip < 16
    → sid < 2 ^ 31
    → IsRelay m
    → m.count < relay_max_peers
    → (m' : RelayManager) × (relay_listen net ip port
          (length (handshake_text peer_id sid my_id))
          (handshake_text peer_id sid my_id ++ (stale ++ (0 ∷ rest)))
          m
        ≡ done m')
      × Heard (ltb (length (handshake_text peer_id sid my_id)) 24) net ip port peer_id sid m m'
unfolding words
handshake-Joins net ip port sid peer_id my_id stale rest m peer me old some_peer some_me peer_fits
      me_fits ip_fits small v room =
    elim (Bool-cases (ltb (length (handshake_text peer_id sid my_id)) 24)) [
      | inl e ↦ (
        m,
        relay_listen-short net ip port _ _ m e,
        subst (λ b. Heard b net ip port peer_id sid m m) (sym e) refl,
      )
      | inr e ↦
          let (m', listened, joins) =
            heard_whole net ip port (length (handshake_text peer_id sid my_id)) sid peer_id
              (my_id ++ stale) rest m peer (IsName-append my_id stale me old) some_peer
              (still_some my_id some_me) peer_fits (ground (arith, length-append my_id stale))
              ip_fits small (ground arith) v room in
          (
            m',
            ap (λ b. relay_listen net ip port (length (handshake_text peer_id sid my_id)) b m)
                  same_text
                ∙ listened,
            subst (λ b. Heard b net ip port peer_id sid m m') (sym e) joins,
          )
    ]
  where
    still_some : (s : Bytes) → is_empty s ≡ false → is_empty (s ++ stale) ≡ false
    still_some [] h = absurd (ground (arith, h))
    still_some (c ∷ s) h = refl

    same_words :
        (codes "RELAY_HANDSHAKE:" ++ (peer_id ++ (58 ∷ (show_nat sid ++ (58 ∷ my_id)))))
          ++ (stale ++ (0 ∷ rest))
        ≡ (codes "RELAY_HANDSHAKE:"
            ++ (peer_id ++ (58 ∷ (show_nat sid ++ (58 ∷ (my_id ++ stale))))))
          ++ (0 ∷ rest)
    same_words = simp append_assoc

    same_text :
        handshake_text peer_id sid my_id ++ (stale ++ (0 ∷ rest))
        ≡ handshake_text peer_id sid (my_id ++ stale) ++ (0 ∷ rest)
    same_text =
        ap (λ t. t ++ (stale ++ (0 ∷ rest)))
          (whole_text net ip port 0 sid peer_id my_id rest m peer_fits (omega arith) small)
        ∙ same_words
        ∙ sym (
            ap (λ t. t ++ (0 ∷ rest))
              (whole_text net ip port 0 sid peer_id (my_id ++ stale) rest m peer_fits
                (ground (arith, length-append my_id stale)) small))
