-- ===== src/P2p/Secrecy.antt =====
-- What a peer's key is when it is first used.
use orcashi.Prelude.{
  ℕ, ◌^◌, ◌≤◌, ◌<◌, ◌≡◌, refl, ap, ◌∙◌, ℤ, Bool, true, false, Option, none, some, not, ◌||◌, ◌++◌,
  if◌then◌else◌, Code, ok, err, length, set, get_or, get_or-set_self, length-set, arith, le→ltb,
  replicate,
}
use orcashi.CString.Text.{Bytes}
use orcashi.CString.Memory.{bind-done, done, ◌>>=◌}
use orcashi.State.Ids.{normalize_id}
use orcashi.P2p.Types.{
  Manager, Host, Identity, zero_peer, is_established, established, p2p_max_peers,
}
use orcashi.P2p.Message.{header_len, build_message, read-build}
use orcashi.P2p.Table.{peer_at, put_peer, find_index, has_id}
use orcashi.P2p.Channel.{send_message, sent_off, is_refused, type_data}
use orcashi.P2p.Handlers.{dispatch, process_message}
use orcashi.P2p.Connect.{send_sealed, p2p_connect}
use orcashi.P2p.Calling.{Meets, called, called_peer, connected}
use orcashi.P2p.Sending.{send_message_ok}

-- The manager behind an answer to a handshake from the peer at index `i`.
abbrev pub answered : ℤ → ℕ → Manager → Manager
answered now i m =
    put_peer m i
      (record (peer_at m i) { state = established; is_secure = true; last_activity = now })

response :
    (h g : Host) (i n : ℕ) (m : Manager) (payload rest : Bytes)
    → header_len ≤ n
    → length payload < 2 ^ 32
    → process_message h i (build_message g 2 payload ++ rest) n m ≡ done (ok, answered h.now i m)
unfolding process_message dispatch
response h g i n m payload rest long fits =
    rw (le→ltb n header_len long, read-build g 2 payload rest (omega arith) fits) refl

send_sealed_ok :
    (h : Host) (i : ℕ) (m : Manager) (text tag sealed : Bytes) (fd : ℕ)
    → (peer_at m i).state ≡ established
    → (peer_at m i).is_secure ≡ true
    → (peer_at m i).udp_socket ≡ some fd
    → h.memory ≡ true
    → h.sends i ≡ true
    → h.encrypt text (peer_at m i).aes_key h.random_nonce ≡ some (tag, sealed)
    → send_sealed h i text m ≡ (ok, sent_off h i type_data (h.random_nonce ++ (tag ++ sealed)) m)
unfolding send_sealed
send_sealed_ok h i m text tag sealed fd est sec opened memory sends encrypted =
    sealed_and_taken _ _ _ (λ t s. send_message h i type_data (h.random_nonce ++ (t ++ s)) m) ready
      encrypted (rw memory refl)
    ∙ send_message_ok h i type_data (h.random_nonce ++ (tag ++ sealed)) m fd opened taken
  where
    ready : (not (is_established (peer_at m i).state) || not (peer_at m i).is_secure) ≡ false
    ready = rw (est, sec) refl

    taken : is_refused h i type_data (peer_at m i) ≡ false
    taken = rw (est, memory, sends) refl

    sealed_and_taken :
        (b : Bool) (o : Option (Bytes × Bytes)) (c : Bool) (f : Bytes → Bytes → Code × Manager)
        → b ≡ false
        → o ≡ some (tag, sealed)
        → c ≡ false
        → (if b
            then (err, m)
            else elim o [ none ↦ (err, m) | some (t, s) ↦ if c then (err, m) else f t s ])
          ≡ f tag sealed
    sealed_and_taken b o c f e1 e2 e3 = rw (e1, e2, e3) refl

-- The answer to a handshake, of whatever payload, makes a peer established and secure without any
-- agreement on a key: with the socket open, a text that is then sent to the peer is encrypted with
-- the key that the peer had before.
pub response_key :
    (h g h' : Host) (i n : ℕ) (m : Manager) (payload rest text tag sealed : Bytes) (fd : ℕ)
    → header_len ≤ n
    → length payload < 2 ^ 32
    → i < length m.peers
    → (peer_at m i).udp_socket ≡ some fd
    → h'.memory ≡ true
    → h'.sends i ≡ true
    → h'.encrypt text (peer_at m i).aes_key h'.random_nonce ≡ some (tag, sealed)
    → (process_message h i (build_message g 2 payload ++ rest) n m >>= λ (code, m1).
        done (send_sealed h' i text m1))
      ≡ done (ok, sent_off h' i type_data (h'.random_nonce ++ (tag ++ sealed)) (answered h.now i m))
response_key h g h' i n m payload rest text tag sealed fd long fits inside opened memory sends
      encrypted =
    ap (λ r. r >>= λ (code, m1). done (send_sealed h' i text m1))
      (response h g i n m payload rest long fits)
    ∙ ap done (
        send_sealed_ok h' i (answered h.now i m) text tag sealed fd (ap (λ p. p.state) here)
          (ap (λ p. p.is_secure) here) (ap (λ p. p.udp_socket) here ∙ opened) memory sends
          (ap (λ p. h'.encrypt text p.aes_key h'.random_nonce) here ∙ encrypted))
  where
    here :
        peer_at (answered h.now i m) i
        ≡ record (peer_at m i) { state = established; is_secure = true; last_activity = h.now }
    here = get_or-set_self m.peers i _ zero_peer inside

-- A peer that was not in the table is called, it answers the handshake with whatever payload, and
-- a text is sent to it: the text is encrypted with a key of 32 zeros and sent.
pub zero_key :
    (h g g' h' : Host) (id ip : Bytes) (port : ℤ) (fd : ℕ) (identity : Identity) (signature : Bytes)
    (m : Manager) (c : Meets h id ip port fd identity signature m.peer_count)
    (inside : m.peer_count < length m.peers) (n : ℕ) (payload rest text tag sealed : Bytes)
    → m.mutex_held ≡ false
    → find_index (has_id (normalize_id id)) m.peer_count m.peers ≡ none
    → m.peer_count < p2p_max_peers
    → m.initialized ≡ true
    → header_len ≤ n
    → length payload < 2 ^ 32
    → h'.memory ≡ true
    → h'.sends m.peer_count ≡ true
    → h'.encrypt text (replicate 32 0) h'.random_nonce ≡ some (tag, sealed)
    → (p2p_connect h id m >>= λ (code, m1).
        process_message g' m.peer_count (build_message g 2 payload ++ rest) n m1 >>= λ (code, m2).
        done (send_sealed h' m.peer_count text m2))
      ≡ done (
        ok,
        sent_off h' m.peer_count type_data
            (h'.random_nonce ++ (tag ++ sealed))
            (answered g'.now m.peer_count (called h id ip port fd identity signature m c inside)),
      )
zero_key h g g' h' id ip port fd identity signature m c inside n payload rest text tag sealed free
      new room started long fits memory sends encrypted =
    bind-done (p2p_connect h id m) (ok, called h id ip port fd identity signature m c inside) _
      (connected h id ip port fd identity signature m c inside free new room started)
    ∙ response_key g' g h' m.peer_count n (called h id ip port fd identity signature m c inside)
        payload rest text tag sealed fd long fits
        (omega (arith, inside, length-set m.peers m.peer_count (called_peer h id ip port fd)))
        (ap (λ p. p.udp_socket) here) memory sends
        (ap (λ p. h'.encrypt text p.aes_key h'.random_nonce) here ∙ encrypted)
  where
    here :
        get_or (set m.peers m.peer_count (called_peer h id ip port fd)) m.peer_count zero_peer
        ≡ called_peer h id ip port fd
    here = get_or-set_self m.peers m.peer_count (called_peer h id ip port fd) zero_peer inside
