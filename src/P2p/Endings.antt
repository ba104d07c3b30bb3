-- ===== src/P2p/Endings.antt =====
-- Which operations of the P2P manager always come to an end, and where the listener does not.
use orcashi.Prelude.{ℕ, ◌≤◌, ◌≡◌, refl, ℤ, true, false, not, none, some, le→ltb, Code, err}
use orcashi.CString.Text.{Bytes, is_empty}
use orcashi.CString.Memory.{
  Run, done, blocked, ◌>>=◌, Returns, Returns-done, Returns-if, Returns-option, Returns-then,
  AtEnd-Returns,
}
use orcashi.State.Ids.{normalize_id}
use orcashi.P2p.Types.{Manager, Host, is_established, is_handshake}
use orcashi.P2p.Message.{P2pMessage, p2p_magic, header_len, read_message}
use orcashi.P2p.Table.{lock, peer_at, find_peer, find_index}
use orcashi.P2p.Handlers.{split_bar}
use orcashi.P2p.Listener.{meet_peer, receive, keepalive, has_address}
use orcashi.P2p.Connect.{p2p_accept, p2p_disconnect, p2p_send_secure, p2p_send}
use orcashi.P2p.Keeps.{IsManager}
use orcashi.P2p.Steps.{add_peer_held}
use orcashi.P2p.Histories.{
  Action, connecting_to, accepting, disconnecting_from, sending, sending_secure, receiving,
  starting, keeping, cleaning, perform, perform-IsManager,
}

record IsFree (m : Manager) : Type 0 where
  free : m.mutex_held ≡ false

-- What is asked of the manager without a lookup in the DHT, without a message from outside and
-- without the threads' start or end.
unfoldable pub IsOwn : Action → Type 0
IsOwn (connecting_to id) = ⊥
IsOwn (receiving ip port buffer n) = ⊥
IsOwn starting = ⊥
IsOwn cleaning = ⊥
IsOwn _ = Unit

abbrev IsFreed {ℓ} : {A : Type ℓ} → A × Manager → Type 0
IsFreed r = IsFree r.1

abbrev Any {ℓ} : {A : Type ℓ} → A → Type 0
Any a = Unit

lock-Returns : {m : Manager} → IsFree m → Returns Any (lock m)
unfolding lock Returns
lock-Returns e = rw e.free tt

find_peer-Returns : (id : Bytes) {m : Manager} → IsFree m → Returns (IsFreed) (find_peer id m)
unfolding find_peer
find_peer-Returns id {m} e =
    Returns-then _ Any (lock m) _ (lock-Returns e) λ m' t. Returns-done _ (record { free = refl })

found-Returns :
    (id : Bytes) (f : ℕ → Manager → Run (Code × Manager)) {m : Manager}
    → IsFree m
    → ((i : ℕ) (m : Manager) → IsFree m → Returns Any (f i m))
    → Returns {A = Code × Manager} Any
        (find_peer id m >>= λ (found, m1). elim found [ none ↦ done (err, m1) | some i ↦ f i m1 ])
found-Returns id f {m} e k =
    Returns-then _ (IsFreed) (find_peer id m) _ (find_peer-Returns id e)
      λ (found, m1) e1. Returns-option _ found _ _ (Returns-done _ tt) λ i. k i m1 e1

p2p_send_secure-Returns :
    (h : Host) (id text : Bytes) {m : Manager}
    → IsFree m
    → Returns Any (p2p_send_secure h id text m)
unfolding p2p_send_secure
p2p_send_secure-Returns h id text e =
    Returns-if _ (is_empty text) _ _ (Returns-done _ tt)
      (found-Returns (normalize_id id) _ e λ i m1 e1. Returns-done _ tt)

p2p_send-Returns :
    (h : Host) (id text : Bytes) {m : Manager} → IsFree m → Returns Any (p2p_send h id text m)
unfolding p2p_send
p2p_send-Returns h id text e = found-Returns (normalize_id id) _ e λ i m1 e1.
    Returns-if _ (not (is_established (peer_at m1 i).state)) _ _ (Returns-done _ tt) (
      Returns-if _ (peer_at m1 i).is_secure _ _ (p2p_send_secure-Returns h id text e1)
        (Returns-done _ tt))

p2p_accept-Returns :
    (h : Host) (id : Bytes) {m : Manager} → IsFree m → Returns Any (p2p_accept h id m)
unfolding p2p_accept
p2p_accept-Returns h id e = found-Returns (normalize_id id) _ e λ i m1 e1.
    Returns-if _ (not (is_handshake (peer_at m1 i).state)) _ _ (Returns-done _ tt)
      (Returns-done _ tt)

p2p_disconnect-Returns :
    (h : Host) (id : Bytes) {m : Manager} → IsFree m → Returns Any (p2p_disconnect h id m)
unfolding p2p_disconnect
p2p_disconnect-Returns h id e = found-Returns (normalize_id id) _ e λ i m1 e1. Returns-done _ tt

keepalive-Returns : (h : Host) {m : Manager} → IsFree m → Returns Any (keepalive h m)
unfolding keepalive
keepalive-Returns h {m} e = Returns-then _ Any (lock m) _ (lock-Returns e) λ m1 t. Returns-done _ tt

perform-Returns :
    (h : Host) (a : Action) {m : Manager} → IsOwn a → IsFree m → Returns Any (perform h a m)
unfolding perform IsOwn
perform-Returns h (connecting_to id) o e = absurd o
perform-Returns h (accepting id) o e =
    Returns-then _ _ _ _ (p2p_accept-Returns h id e) λ r t. Returns-done _ tt
perform-Returns h (disconnecting_from id) o e =
    Returns-then _ _ _ _ (p2p_disconnect-Returns h id e) λ r t. Returns-done _ tt
perform-Returns h (sending id text) o e =
    Returns-then _ _ _ _ (p2p_send-Returns h id text e) λ r t. Returns-done _ tt
perform-Returns h (sending_secure id text) o e =
    Returns-then _ _ _ _ (p2p_send_secure-Returns h id text e) λ r t. Returns-done _ tt
perform-Returns h (receiving ip port buffer n) o e = absurd o
perform-Returns h starting o e = absurd o
perform-Returns h keeping o e = keepalive-Returns h e
perform-Returns h cleaning o e = absurd o

-- From a manager that is as it should be with the mutex free, accepting a peer, disconnecting from
-- one, sending a text, also encrypted, and a round of the keepalives come to an end, without waiting
-- for ever and without reading or writing outside of an array, and leave a manager that is as it
-- should be with the mutex free.
pub own-IsManager :
    (h : Host) (a : Action) {m : Manager}
    → IsOwn a
    → IsManager false m
    → Returns (IsManager false) (perform h a m)
own-IsManager h a {m} o v =
    AtEnd-Returns _ Any (perform h a m) (perform-IsManager h a v)
      (perform-Returns h a o (record { free = v.mutex }))

-- With the mutex free, a datagram of at least 20 bytes in a buffer that begins with a header with
-- the magic number and the type of a handshake and holds a bar behind some id makes the listener
-- wait for ever, where it comes from an address that no peer of the table has: `add_peer` takes
-- the mutex that the listener holds.
pub receive_new :
    (h : Host) (ip : Bytes) (port : ℤ) (buffer : Bytes) (n : ℕ) (m : Manager) (msg : P2pMessage)
    (payload id behind : Bytes)
    → m.mutex_held ≡ false
    → header_len ≤ n
    → read_message buffer ≡ some (msg, payload)
    → msg.magic ≡ p2p_magic
    → msg.type ≡ 1
    → split_bar payload ≡ done (some (id, behind))
    → find_index (has_address ip port) m.peer_count m.peers ≡ none
    → receive h ip port buffer n m ≡ blocked
unfolding receive meet_peer lock
receive_new h ip port buffer n m msg payload id behind free long read magic type bar new =
    rw
      (
        le→ltb n header_len long,
        read,
        magic,
        free,
        new,
        type,
        bar,
        add_peer_held h.now id (record m { mutex_held = true }) refl,
      )
      refl
