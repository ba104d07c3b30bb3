-- ===== src/P2p/Calling.antt =====
-- A call to a peer that is not in the table.
use orcashi.Prelude.{
  ℕ, ◌+◌, ◌≤◌, ◌<◌, ◌≡◌, refl, ap, ap₂, ◌∙◌, ℤ, true, false, Option, none, some, not, Option-some,
  [], ◌∷◌, ◌++◌, Code, ok, err, length, set, length-append, if-false, arith, le→ltb,
}
use orcashi.CString.Text.{Bytes, codes}
use orcashi.CString.Memory.{Run, done, ◌>>=◌, strcpy, strcpy_ok, bind-done}
use orcashi.State.Ids.{normalize_id, normalize_id_idem}
use orcashi.P2p.Types.{P2pPeer, Manager, Host, Identity, handshake, p2p_max_peers}
use orcashi.P2p.Message.{build_message}
use orcashi.P2p.Table.{
  peer_at, put_peer, fresh_peer, find_index, has_id, lock, unlock, find_peer, add_peer, add_entry,
}
use orcashi.P2p.Channel.{send_handshake, sent_off, is_refused, type_handshake, signed_text}
use orcashi.P2p.Connect.{calling_peer, call_peer, p2p_connect, start_call, is_underway, give_up}
use orcashi.P2p.Sending.{send_message_ok}
use orcashi.P2p.Entries.{
  peer_at-put_peer, put_peer_again, lock_free, find_peer_free, freed, entry_new,
}

-- What a call meets: the peer's address and a socket are found, the address is reached, and the
-- handshake is signed, fits its array and is taken by the network.
pub record Meets (h : Host) (id ip : Bytes) (port : ℤ) (fd : ℕ) (identity : Identity)
    (signature : Bytes) (i : ℕ) : Type 0 where
  pub found : h.dht_lookup (normalize_id id) ≡ some (ip, port)
  pub short : length ip < 16
  pub socket : h.new_socket ≡ some fd
  pub punched : h.hole_punch ip port ≡ ok
  pub own : h.identity ≡ some identity
  pub signed : h.sign (signed_text identity.id identity h.now) identity.private_key ≡ some signature
  pub fits :
      length ((identity.id ++ (codes "|" ++ (identity.public_key ++ codes "|"))) ++ signature)
      ≤ 4096
  pub memory : h.memory ≡ true
  pub sends : h.sends i ≡ true

abbrev pub hello : Identity → Bytes → Bytes
hello identity signature =
    (identity.id ++ (codes "|" ++ (identity.public_key ++ codes "|"))) ++ signature

-- The peer as the call leaves it.
abbrev pub called_peer : Host → Bytes → Bytes → ℤ → ℕ → P2pPeer
called_peer h id ip port fd =
    record (calling_peer h.now ip port (fresh_peer (normalize_id id) h.now)) {
      udp_socket = some fd;
      state = handshake;
    }

module _ (h : Host) (id ip : Bytes) (port : ℤ) (fd : ℕ) (identity : Identity) (signature : Bytes)
    (m : Manager) (c : Meets h id ip port fd identity signature m.peer_count)
    (inside : m.peer_count < length m.peers) where
  abbrev i : ℕ
  i = m.peer_count

  -- The peer before its handshake.
  abbrev early : P2pPeer
  early = record (calling_peer h.now ip port (fresh_peer (normalize_id id) h.now)) {
    udp_socket = some fd;
  }

  abbrev counted : Manager
  counted = record m { peer_count = m.peer_count + 1 }

  here : peer_at (put_peer counted i early) i ≡ early
  here = peer_at-put_peer counted i early inside

  taken : is_refused h i type_handshake (peer_at (put_peer counted i early) i) ≡ false
  taken = ap (is_refused h i type_handshake) here ∙ rw (c.memory, c.sends) refl

  greeted :
      send_handshake h i (put_peer counted i early)
      ≡ done (ok, sent_off h i type_handshake (hello identity signature) (put_peer counted i early))
  unfolding send_handshake
  greeted =
      Option-some h.identity _ _ c.own
      ∙ if-false _ _ _ (
          le→ltb 4096 (length (identity.id ++ (codes "|" ++ (identity.public_key ++ codes "|"))))
            short_head)
      ∙ Option-some (h.sign (signed_text identity.id identity h.now) identity.private_key) _ _
          c.signed
      ∙ if-false _ _ _ (le→ltb 4096 (length (hello identity signature)) c.fits)
      ∙ ap done (
          send_message_ok h i type_handshake (hello identity signature) (put_peer counted i early)
            fd (ap (λ p. p.udp_socket) here) taken)
    where
      short_head : length (identity.id ++ (codes "|" ++ (identity.public_key ++ codes "|"))) ≤ 4096
      short_head = omega (
        arith,
        c.fits,
        length-append (identity.id ++ (codes "|" ++ (identity.public_key ++ codes "|"))) signature,
      )

  -- The manager behind a call that succeeds.
  abbrev pub called : Manager
  called = record m {
    peers = set m.peers i (called_peer h id ip port fd);
    peer_count = m.peer_count + 1;
    sent = m.sent ++ (((ip, port), build_message h type_handshake (hello identity signature)) ∷ []);
  }

  shook : call_peer h i (put_peer counted i early) ≡ done (ok, called)
  unfolding call_peer
  shook =
      ap
        (λ p. elim (h.hole_punch p.ip p.port) [
          | err ↦ done (err, give_up i (put_peer counted i early))
          | ok ↦ rest
        ])
        here
      ∙ ap (λ c. elim c [ err ↦ done (err, give_up i (put_peer counted i early)) | ok ↦ rest ])
          c.punched
      ∙ ap after greeted
      ∙ ap (λ m1. done (ok, put_peer m1 i (record (peer_at m1 i) { state = handshake }))) off
      ∙ ap (λ m1. done (ok, m1))
          (put_peer_again outgoing i early inside (λ p. record p { state = handshake }))
    where
      outgoing : Manager
      outgoing = record counted {
        sent =
            m.sent
            ++ (((ip, port), build_message h type_handshake (hello identity signature)) ∷ []);
      }

      off :
          sent_off h i type_handshake (hello identity signature) (put_peer counted i early)
          ≡ put_peer outgoing i early
      off =
          ap₂ {A = Manager} {B = Bytes × ℤ}
            (λ m1 addr. record m1 {
              sent =
                  m.sent
                  ++ ((addr, build_message h type_handshake (hello identity signature)) ∷ []);
            })
            (put_peer_again counted i early inside (λ p. record p { last_activity = h.now }))
            (ap (λ p. p.addr) here)

      after : Run (Code × Manager) → Run (Code × Manager)
      after r = r >>= λ (code, m1). elim code [
        | err ↦ done (err, give_up i m1)
        | ok ↦ done (ok, put_peer m1 i (record (peer_at m1 i) { state = handshake }))
      ]

      rest : Run (Code × Manager)
      rest = after (send_handshake h i (put_peer counted i early))

  began :
      start_call h ip port i (put_peer counted i (fresh_peer (normalize_id id) h.now))
      ≡ done (ok, called)
  unfolding start_call
  began =
      bind-done (strcpy 16 ip) ip _ (strcpy_ok 16 ip c.short)
      ∙ Option-some h.new_socket _ _ c.socket
      ∙ ap (λ m3. call_peer h i (put_peer m3 i (record (peer_at m3 i) { udp_socket = some fd })))
          (put_peer_again counted i (fresh_peer (normalize_id id) h.now) inside
            (calling_peer h.now ip port))
      ∙ ap (call_peer h i) (
          put_peer_again counted i (calling_peer h.now ip port (fresh_peer (normalize_id id) h.now))
            inside (λ p. record p { udp_socket = some fd }))
      ∙ shook

  module _ (free : m.mutex_held ≡ false)
      (new : find_index (has_id (normalize_id id)) m.peer_count m.peers ≡ none)
      (room : m.peer_count < p2p_max_peers) where
    none_found : find_peer (normalize_id id) m ≡ done (none, m)
    none_found =
        find_peer_free m free (normalize_id id)
        ∙ ap (λ x. done (find_index (has_id x) m.peer_count m.peers, m)) (normalize_id_idem id)
        ∙ ap (λ o. done (o, m)) new

    added :
        add_peer h.now (normalize_id id) m
        ≡ done (some i, put_peer counted i (fresh_peer (normalize_id id) h.now))
    unfolding add_peer
    added =
        bind-done (lock m) _ _ (lock_free m free)
        ∙ ap (λ x. opened (add_entry h.now x (record m { mutex_held = true })))
            (normalize_id_idem id)
        ∙ ap opened (entry_new h.now (normalize_id id) (record m { mutex_held = true }) new room)
        ∙ ap
            (λ m1. done (
              some i,
              put_peer (record m1 { peer_count = i + 1 }) i (fresh_peer (normalize_id id) h.now),
            ))
            (freed m free)
      where
        opened : Option ℕ × Manager → Run (Option ℕ × Manager)
        opened r = done (r.0, unlock r.1)

    -- A call to a peer that is not in a table with room for it, by a manager that is initialized
    -- and whose mutex is free, succeeds where all that it meets is as it should be: the peer is
    -- put behind the others in the state of a handshake, with the address that was found, the
    -- socket, and a key of zeros, and the text of the handshake with its signature is sent to that
    -- address.
    pub connected : m.initialized ≡ true → p2p_connect h id m ≡ done (ok, called)
    unfolding p2p_connect is_underway
    connected started =
        if-false (not m.initialized) _ _ (rw started refl)
        ∙ bind-done (find_peer (normalize_id id) m) (none, m) _ none_found
        ∙ Option-some (h.dht_lookup (normalize_id id)) _ _ c.found
        ∙ bind-done (add_peer h.now (normalize_id id) m)
            (some i, put_peer counted i (fresh_peer (normalize_id id) h.now)) _ added
        ∙ began
