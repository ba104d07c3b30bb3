-- ===== src/P2p/Silence.antt =====
-- A round of `keepalive_thread` while messages can be sent.
use orcashi.Prelude.{
  ℕ, zero, suc, ◌<◌, ◌≡◌, refl, sym, ap, ◌∙◌, ℤ, pos, negsuc, true, false, some, List, [], ◌∷◌, ok,
  length, arith, get_or, set, get_or-set_self, Bool-cases, inl, inr, is_positive, sub_nat,
}
use orcashi.CString.Memory.{done}
use orcashi.P2p.Types.{P2pPeer, Manager, Host, zero_peer, is_established}
use orcashi.P2p.Table.{lock, peer_at}
use orcashi.P2p.Channel.{is_refused, send_message, sent_off, type_keepalive}
use orcashi.P2p.Sending.{send_message_ok}
use orcashi.P2p.Listener.{elapsed, is_older, probe, time_out, keep_peer, keep_peers, keepalive}

-- The first manager's peers have the same states and sockets as the second's, and the state
-- manager and the event queue hold the same.
pub record Same (m m' : Manager) : Type 0 where
  pub states : (i : ℕ) → (peer_at m' i).state ≡ (peer_at m i).state
  pub sockets : (i : ℕ) → (peer_at m' i).udp_socket ≡ (peer_at m i).udp_socket
  pub world : m'.world ≡ m.world

Same-refl : (m : Manager) → Same m m
Same-refl m = record { states = λ i. refl; sockets = λ i. refl; world = refl }

Same-trans : {m1 m2 m3 : Manager} → Same m1 m2 → Same m2 m3 → Same m1 m3
Same-trans a b = record {
  states = λ i. b.states i ∙ a.states i;
  sockets = λ i. b.sockets i ∙ a.sockets i;
  world = b.world ∙ a.world;
}

older_still : (now : ℤ) (p : P2pPeer) → is_older 60 now p ≡ false → is_older 150 now p ≡ false
older_still now p e = go (elapsed now p.last_activity) e
  where
    go : (z : ℤ) → is_positive (sub_nat z 60) ≡ false → is_positive (sub_nat z 150) ≡ false
    go (pos n) e = ground arith
    go (negsuc n) e = refl

is_older_now : (now : ℤ) (p : P2pPeer) → p.last_activity ≡ now → is_older 150 now p ≡ false
is_older_now now p e = rw e (go now)
  where
    go : (t : ℤ) → is_positive (sub_nat (elapsed t t) 150) ≡ false
    go (pos n) = ground arith
    go (negsuc n) = ground arith

in_table :
    (ps : List P2pPeer) (i : ℕ)
    → is_established (get_or ps i zero_peer).state ≡ true
    → i < length ps
in_table [] i e = cc
in_table (p ∷ ps) zero e = omega arith
in_table (p ∷ ps) (suc i) e = omega (arith, in_table ps i e)

-- What a write does not change of an entry it changes of none.
field-set {ℓ} :
    {B : Type ℓ} (f : P2pPeer → B) (ps : List P2pPeer) (i j : ℕ) (v : P2pPeer)
    → f v ≡ f (get_or ps i zero_peer)
    → f (get_or (set ps i v) j zero_peer) ≡ f (get_or ps j zero_peer)
field-set f [] i j v e = refl
field-set f (p ∷ ps) zero zero v e = e
field-set f (p ∷ ps) zero (suc j) v e = refl
field-set f (p ∷ ps) (suc i) zero v e = refl
field-set f (p ∷ ps) (suc i) (suc j) v e = field-set f ps i j v e

-- Every established peer has an open socket, and what is sent over it is taken.
pub record CanSend (h : Host) (m : Manager) : Type 0 where
  pub memory : h.memory ≡ true
  pub sends : (i : ℕ) → h.sends i ≡ true
  pub opened :
      (i : ℕ)
      → is_established (peer_at m i).state ≡ true
      → (fd : ℕ) × ((peer_at m i).udp_socket ≡ some fd)

CanSend-Same : {h : Host} {m m' : Manager} → CanSend h m → Same m m' → CanSend h m'
CanSend-Same {m'} c s = record {
  memory = c.memory;
  sends = c.sends;
  opened = λ i e.
      let (fd, q) = c.opened i (ap is_established (sym (s.states i)) ∙ e) in (fd, s.sockets i ∙ q);
}

module _ (h : Host) (i : ℕ) {m : Manager} (c : CanSend h m)
    (e : is_established (peer_at m i).state ≡ true) where
  taken : is_refused h i type_keepalive (peer_at m i) ≡ false
  taken = rw (e, c.memory, c.sends i) refl

  sent : send_message h i type_keepalive (0 ∷ []) m ≡ (ok, sent_off h i type_keepalive (0 ∷ []) m)
  sent = send_message_ok h i type_keepalive (0 ∷ []) m (c.opened i e).0 (c.opened i e).1 taken

  sent-Same : Same m (sent_off h i type_keepalive (0 ∷ []) m)
  sent-Same = record {
    states = λ j. field-set (λ p. p.state) m.peers i j _ refl;
    sockets = λ j. field-set (λ p. p.udp_socket) m.peers i j _ refl;
    world = refl;
  }

  probed-last : (peer_at (sent_off h i type_keepalive (0 ∷ []) m) i).last_activity ≡ h.now
  probed-last =
      ap (λ p. p.last_activity) (get_or-set_self m.peers i _ zero_peer (in_table m.peers i e))

  keep_established : Same m (time_out h i (probe h i m))
  unfolding probe time_out
  keep_established = elim (Bool-cases (is_older 60 h.now (peer_at m i))) [
    | inl old ↦
        rw
          (
            old,
            sent,
            is_older_now h.now (peer_at (sent_off h i type_keepalive (0 ∷ []) m) i) probed-last,
          )
          sent-Same
    | inr young ↦ rw (young, older_still h.now (peer_at m i) young) (Same-refl m)
  ]

keep_peer-Same : (h : Host) (i : ℕ) {m : Manager} → CanSend h m → Same m (keep_peer h i m)
unfolding keep_peer
keep_peer-Same h i {m} c = elim (Bool-cases (is_established (peer_at m i).state)) [
  | inl e ↦ rw e (keep_established h i c e)
  | inr e ↦ rw e (Same-refl m)
]

keep_peers-Same : (h : Host) (n i : ℕ) {m : Manager} → CanSend h m → Same m (keep_peers h n i m)
unfolding keep_peers
keep_peers-Same h zero i {m} c = Same-refl m
keep_peers-Same h (suc n) i {m} c =
    Same-trans (keep_peer-Same h i c)
      (keep_peers-Same h n (suc i) (CanSend-Same c (keep_peer-Same h i c)))

-- With the mutex free, a round of the keepalives ends and disconnects no peer, however long ago it
-- was heard of, where every established peer has an open socket and what is sent is taken: each
-- peer keeps its state and its socket, and neither the state manager nor the event queue is told
-- of anything.
pub keepalive-Same :
    (h : Host) (m : Manager)
    → m.mutex_held ≡ false
    → CanSend h m
    → (m' : Manager) × ((keepalive h m ≡ done m') × Same m m')
unfolding keepalive lock
keepalive-Same h m free c =
    rw free (_, (refl, record { states = s.states; sockets = s.sockets; world = s.world }))
  where
    s :
        Same
          (record m { mutex_held = true })
          (keep_peers h m.peer_count 0 (record m { mutex_held = true }))
    s =
        keep_peers-Same h m.peer_count 0
          (record { memory = c.memory; sends = c.sends; opened = c.opened })
