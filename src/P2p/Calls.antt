-- ===== src/P2p/Calls.antt =====
-- What the program asks of the P2P manager, each from a free mutex.
use orcashi.Prelude.{
  ℕ, zero, suc, ◌≡◌, refl, ap, ◌∙◌, Bool, true, false, not, ◌||◌, Option, none, some, List, [], ◌∷◌,
  ◌++◌, if◌then◌else◌, Code, ok, err, length, arith, take, drop, map,
}
use orcashi.CString.Text.{Bytes, is_empty}
use orcashi.CString.Memory.{
  Run, done, AtEnd, AtEnd-done, AtEnd-overrun, AtEnd-blocked, AtEnd-option, AtEnd-code, AtEnd-if,
  AtEnd-bind, AtEnd-then, ◌>>=◌, strcpy,
}
use orcashi.State.Ids.{normalize_id}
use orcashi.P2p.Types.{P2pPeer, Manager, Host, is_established, is_handshake}
use orcashi.P2p.Table.{lock, peer_at, put_peer, find_peer, add_peer}
use orcashi.P2p.Channel.{
  send_message, send_handshake, signed_text, type_handshake, type_data, type_close,
}
use orcashi.P2p.Connect.{
  is_underway, call_peer, start_call, p2p_connect, p2p_accept, hang_up, p2p_disconnect, send_sealed,
  p2p_send_secure, p2p_send, p2p_init, p2p_cleanup, closed,
}
use orcashi.P2p.Keeps.{
  IsManager, Ends, put_peer-IsManager, act-IsManager, and_then-IsManager, send_message-IsManager,
  secure-IsManager,
}
use orcashi.P2p.Steps.{lock-IsManager, find_peer-After, add_peer-After}

abbrev Kept : Code × Manager → Type 0
Kept r = IsManager false r.1

choose-Kept : (b : Bool) (r s : Code × Manager) → Kept r → Kept s → Kept (if b then r else s)
choose-Kept true r s v w = v
choose-Kept false r s v w = w

module _ (h : Host) where
  found-Ends :
      (id : Bytes) (f : Option ℕ → Manager → Run (Code × Manager)) {m : Manager}
      → IsManager false m
      → ((i : Option ℕ) (m : Manager) → IsManager false m → Ends false (f i m))
      → Ends false (find_peer id m >>= λ (i, m1). f i m1)
  found-Ends id f {m} v k =
      AtEnd-then _ (find_peer id m) _ (find_peer-After id v) λ (i, m1) v1. k i m1 v1

  peer-Ends :
      (id : Bytes) (f : ℕ → Manager → Run (Code × Manager)) {m : Manager}
      → IsManager false m
      → ((i : ℕ) (m : Manager) → IsManager false m → Ends false (f i m))
      → Ends false
          (find_peer id m >>= λ (found, m1). elim found [ none ↦ done (err, m1) | some i ↦ f i m1 ])
  peer-Ends id f {m} v k =
      AtEnd-then _ (find_peer id m) _ (find_peer-After id v)
        λ (found, m1) v1. AtEnd-option _ found _ _ (AtEnd-done _ v1) λ i. k i m1 v1

  send_handshake-Ends :
      (i : ℕ) {m : Manager} → IsManager false m → Ends false (send_handshake h i m)
  unfolding send_handshake
  send_handshake-Ends i {m} v = AtEnd-option _ h.identity _ _ (AtEnd-done _ v) λ identity.
      AtEnd-if _ _ _ _ (AtEnd-overrun _) (
        AtEnd-option _ (h.sign (signed_text identity.id identity h.now) identity.private_key) _ _
          (AtEnd-done _ v)
          λ signature.
            AtEnd-if _ _ _ _ (AtEnd-overrun _)
              (AtEnd-done _ (send_message-IsManager h i type_handshake _ v)))

  call_peer-Ends : (i : ℕ) {m : Manager} → IsManager false m → Ends false (call_peer h i m)
  unfolding call_peer
  call_peer-Ends i {m} v =
      AtEnd-code _ (h.hole_punch (peer_at m i).ip (peer_at m i).port) _ _
        (AtEnd-done _ (put_peer-IsManager i _ v))
        (AtEnd-then _ (send_handshake h i m) _ (send_handshake-Ends i v) λ (code, m1) v1.
          AtEnd-code _ code _ _ (AtEnd-done _ (put_peer-IsManager i _ v1))
            (AtEnd-done _ (put_peer-IsManager i _ v1)))

  pub p2p_connect-Ends :
      (id : Bytes) {m : Manager} → IsManager false m → Ends false (p2p_connect h id m)
  unfolding p2p_connect start_call
  p2p_connect-Ends id {m} v = AtEnd-if _ (not m.initialized) _ _ (AtEnd-done _ v) (
      found-Ends (normalize_id id) _ v λ found m1 v1.
        AtEnd-if _ (is_underway found m1) _ _ (AtEnd-done _ v1) (
          AtEnd-option _ (h.dht_lookup (normalize_id id)) _ _ (AtEnd-done _ v1) λ (ip, port).
            AtEnd-then _ (add_peer h.now (normalize_id id) m1) _
              (add_peer-After h.now (normalize_id id) v1)
              λ (entry, m2) v2. AtEnd-option _ entry _ _ (AtEnd-done _ v2) λ i.
                AtEnd-bind _ (strcpy 16 ip) _ λ copy.
                  AtEnd-option _ h.new_socket _ _
                    (AtEnd-done _ (put_peer-IsManager i _ (put_peer-IsManager i _ v2)))
                    λ fd. call_peer-Ends i (put_peer-IsManager i _ (put_peer-IsManager i _ v2))))

  pub p2p_accept-Ends :
      (id : Bytes) {m : Manager} → IsManager false m → Ends false (p2p_accept h id m)
  unfolding p2p_accept
  p2p_accept-Ends id v = peer-Ends (normalize_id id) _ v λ i m1 v1.
      AtEnd-if _ (not (is_handshake (peer_at m1 i).state)) _ _ (AtEnd-done _ v1) (
        AtEnd-done _ (
          and_then-IsManager _ _ (secure-IsManager h i v1)
            λ m2 v2. act-IsManager h.now _ (put_peer-IsManager i _ v2)))

  hang_up-IsManager : (i : ℕ) {m : Manager} → IsManager false m → IsManager false (hang_up h i m)
  unfolding hang_up
  hang_up-IsManager i {m} v = go (peer_at m i).udp_socket
    where
      go :
          (o : Option ℕ)
          → IsManager false (elim o [
            | none ↦ m
            | some fd ↦
                let m1 = (send_message h i type_close (0 ∷ []) m).1 in
                put_peer m1 i (record (peer_at m1 i) { udp_socket = none })
          ])
      go none = v
      go (some fd) = put_peer-IsManager i _ (send_message-IsManager h i type_close _ v)

  pub p2p_disconnect-Ends :
      (id : Bytes) {m : Manager} → IsManager false m → Ends false (p2p_disconnect h id m)
  unfolding p2p_disconnect
  p2p_disconnect-Ends id v = peer-Ends (normalize_id id) _ v λ i m1 v1.
      AtEnd-done _ (act-IsManager h.now _ (put_peer-IsManager i _ (hang_up-IsManager i v1)))

  send_sealed-IsManager :
      (i : ℕ) (text : Bytes) {m : Manager} → IsManager false m → Kept (send_sealed h i text m)
  unfolding send_sealed
  send_sealed-IsManager i text {m} v =
      choose-Kept (not (is_established (peer_at m i).state) || not (peer_at m i).is_secure) _ _ v
        (sealed (h.encrypt text (peer_at m i).aes_key h.random_nonce))
    where
      sealed :
          (o : Option (Bytes × Bytes))
          → Kept (elim o [
            | none ↦ (err, m)
            | some (tag, ciphertext) ↦
                if not h.memory
                then (err, m)
                else send_message h i type_data (h.random_nonce ++ (tag ++ ciphertext)) m
          ])
      sealed none = v
      sealed (some (tag, ciphertext)) =
          choose-Kept (not h.memory) _ _ v (send_message-IsManager h i type_data _ v)

  pub p2p_send_secure-Ends :
      (id text : Bytes) {m : Manager} → IsManager false m → Ends false (p2p_send_secure h id text m)
  unfolding p2p_send_secure
  p2p_send_secure-Ends id text v =
      AtEnd-if _ (is_empty text) _ _ (AtEnd-done _ v)
        (peer-Ends (normalize_id id) _ v λ i m1 v1. AtEnd-done _ (send_sealed-IsManager i text v1))

  pub p2p_send-Ends :
      (id message : Bytes) {m : Manager} → IsManager false m → Ends false (p2p_send h id message m)
  unfolding p2p_send
  p2p_send-Ends id message v = peer-Ends (normalize_id id) _ v λ i m1 v1.
      AtEnd-if _ (not (is_established (peer_at m1 i).state)) _ _ (AtEnd-done _ v1) (
        AtEnd-if _ (peer_at m1 i).is_secure _ _ (p2p_send_secure-Ends id message v1)
          (AtEnd-done _ (send_message-IsManager h i type_data message v1)))

length-closed :
    (n : ℕ) (ps : List P2pPeer) → length (map closed (take n ps) ++ drop n ps) ≡ length ps
length-closed zero ps = refl
length-closed (suc n) [] = refl
length-closed (suc n) (p ∷ ps) = ap suc (length-closed n ps)

pub p2p_cleanup-IsManager :
    (h : Host) {m : Manager} → IsManager false m → AtEnd (IsManager false) (p2p_cleanup h m)
unfolding p2p_cleanup
p2p_cleanup-IsManager h {m} v = AtEnd-if _ (not m.initialized) _ _ (AtEnd-done _ v) (
    AtEnd-if _ (not h.threads_end) _ _ (AtEnd-blocked _) (
      AtEnd-then _ (lock m) _ (lock-IsManager v) λ m1 v1. AtEnd-done _ (record {
        mutex = refl;
        slots = length-closed m1.peer_count m1.peers ∙ v1.slots;
        count_in = omega arith;
        sound = v1.sound;
      })))

pub p2p_init-IsManager : (h : Host) {m : Manager} → IsManager false m → Kept (p2p_init h m)
unfolding p2p_init
p2p_init-IsManager h {m} v = choose-Kept m.initialized _ _ v (go h.new_socket)
  where
    go :
        (o : Option ℕ)
        → Kept (elim o [ none ↦ (err, m) | some fd ↦ (ok, record m { initialized = true }) ])
    go none = v
    go (some fd) = record {
      mutex = v.mutex;
      slots = v.slots;
      count_in = v.count_in;
      sound = v.sound;
    }
