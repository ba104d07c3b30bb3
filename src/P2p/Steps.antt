-- ===== src/P2p/Steps.antt =====
-- Every operation of the P2P manager from a free mutex, and their histories.
use orcashi.Prelude.{
  ℕ, zero, suc, ◌≡◌, refl, ◌∙◌, ℤ, Bool, true, false, not, none, some, [], ◌∷◌, ltb, leb,
  if◌then◌else◌, length-set, arith, Bool-cases, Option-cases, inl, inr, ◌==◌,
}
use orcashi.CString.Text.{Bytes}
use orcashi.CString.Memory.{
  done, blocked, AtEnd, AtEnd-done, AtEnd-overrun, AtEnd-blocked, AtEnd-option, AtEnd-if,
  AtEnd-bind, AtEnd-then, ◌>>=◌,
}
use orcashi.State.Ids.{normalize_id}
use orcashi.P2p.Types.{Manager, Host, p2p_max_peers, is_established}
use orcashi.P2p.Message.{P2pMessage, p2p_magic, header_len, read_message}
use orcashi.P2p.Table.{lock, unlock, peer_at, find_index, has_id, find_peer, add_entry, add_peer}
use orcashi.P2p.Channel.{type_keepalive}
use orcashi.P2p.Handlers.{split_bar, process_message}
use orcashi.P2p.Listener.{
  meet_peer, receive, has_address, is_older, probe, time_out, keep_peer, keep_peers, keepalive,
}
use orcashi.P2p.Keeps.{
  IsManager, put_peer-IsManager, act-IsManager, send_message-IsManager, process_message-Ends,
}

pub lock-IsManager : {m : Manager} → IsManager false m → AtEnd (IsManager true) (lock m)
unfolding lock AtEnd
lock-IsManager v =
    rw v.mutex (record { mutex = refl; slots = v.slots; count_in = v.count_in; sound = v.sound })

pub unlock-IsManager : {held : Bool} {m : Manager} → IsManager held m → IsManager false (unlock m)
unlock-IsManager v = record {
  mutex = refl;
  slots = v.slots;
  count_in = v.count_in;
  sound = v.sound;
}

abbrev pub After : {A : Type 0} → A × Manager → Type 0
After r = IsManager false r.1

pub find_peer-After : (id : Bytes) {m : Manager} → IsManager false m → AtEnd After (find_peer id m)
unfolding find_peer
find_peer-After id {m} v =
    AtEnd-then _ (lock m) _ (lock-IsManager v) λ m' v'. AtEnd-done _ (unlock-IsManager v')

add_entry-IsManager :
    {held : Bool} (now : ℤ) (norm_id : Bytes) {m : Manager}
    → IsManager held m
    → IsManager held (add_entry now norm_id m).1
unfolding add_entry
add_entry-IsManager now norm_id {m} v =
    elim (Option-cases (find_index (has_id norm_id) m.peer_count m.peers)) [
      | inr (i, e) ↦ rw (add_entry, e) v
      | inl e ↦ elim (Bool-cases (leb p2p_max_peers m.peer_count)) [
        | inl full ↦ rw (add_entry, e, full) v
        | inr free ↦
            rw (add_entry, e, free)
              (record {
                mutex = v.mutex;
                slots = length-set m.peers m.peer_count _ ∙ v.slots;
                count_in = ground arith;
                sound = v.sound;
              })
      ]
    ]

pub add_peer-After :
    (now : ℤ) (id : Bytes) {m : Manager} → IsManager false m → AtEnd After (add_peer now id m)
unfolding add_peer
add_peer-After now id {m} v =
    AtEnd-then _ (lock m) _ (lock-IsManager v)
      λ m' v'. AtEnd-done _ (unlock-IsManager (add_entry-IsManager now (normalize_id id) v'))

-- A thread that holds the mutex does not come back from `add_peer`.
pub add_peer_held :
    (now : ℤ) (id : Bytes) (m : Manager) → m.mutex_held ≡ true → add_peer now id m ≡ blocked
unfolding add_peer lock
add_peer_held now id m e = rw e

meet_peer-IsManager :
    (h : Host) (ip : Bytes) (port : ℤ) (buffer payload : Bytes) (n : ℕ) {m : Manager}
    → IsManager true m
    → AtEnd (IsManager true) (meet_peer h ip port buffer payload n m)
unfolding meet_peer
meet_peer-IsManager h ip port buffer payload n {m} v = AtEnd-bind _ (split_bar payload) _ λ found.
    AtEnd-option _ found _ _ (AtEnd-done _ v)
      λ (id, behind). rw (add_peer_held h.now id m v.mutex) (AtEnd-blocked _)

pub receive-IsManager :
    (h : Host) (ip : Bytes) (port : ℤ) (buffer : Bytes) (n : ℕ) {m : Manager}
    → IsManager false m
    → AtEnd (IsManager false) (receive h ip port buffer n m)
unfolding receive
receive-IsManager h ip port buffer n {m} v = AtEnd-if _ (ltb n header_len) _ _ (AtEnd-done _ v) (
    AtEnd-option _ (read_message buffer) _ _ (AtEnd-overrun _) λ (msg, payload).
      AtEnd-if _ (not (msg.magic == p2p_magic)) _ _ (AtEnd-done _ v) (
        AtEnd-then _ (lock m) _ (lock-IsManager v) λ m1 v1.
          AtEnd-then _
            (elim (find_index (has_address ip port) m1.peer_count m1.peers) [
              | some i ↦ process_message h i buffer n m1 >>= λ r. done r.1
              | none ↦ if msg.type == 1 then meet_peer h ip port buffer payload n m1 else done m1
            ])
            _ (taken msg payload m1 v1) λ m2 v2. AtEnd-done _ (unlock-IsManager v2)))
  where
    taken :
        (msg : P2pMessage) (payload : Bytes) (m1 : Manager)
        → IsManager true m1
        → AtEnd (IsManager true) (elim (find_index (has_address ip port) m1.peer_count m1.peers) [
          | some i ↦ process_message h i buffer n m1 >>= λ r. done r.1
          | none ↦ if msg.type == 1 then meet_peer h ip port buffer payload n m1 else done m1
        ])
    taken msg payload m1 v1 =
        AtEnd-option _ (find_index (has_address ip port) m1.peer_count m1.peers) _ _
          (AtEnd-if _ (msg.type == 1) _ _ (meet_peer-IsManager h ip port buffer payload n v1)
            (AtEnd-done _ v1))
          λ i.
            AtEnd-then _ (process_message h i buffer n m1) _ (process_message-Ends h i buffer n v1)
              λ r v2. AtEnd-done _ v2

choose-IsManager :
    {held : Bool} (b : Bool) (m1 m2 : Manager)
    → IsManager held m1
    → IsManager held m2
    → IsManager held (if b then m1 else m2)
choose-IsManager true m1 m2 x y = x
choose-IsManager false m1 m2 x y = y

probe-IsManager :
    {held : Bool} (h : Host) (i : ℕ) {m : Manager} → IsManager held m → IsManager held (probe h i m)
unfolding probe
probe-IsManager h i {m} v =
    choose-IsManager (is_older 60 h.now (peer_at m i)) _ _
      (send_message-IsManager h i type_keepalive (0 ∷ []) v) v

time_out-IsManager :
    {held : Bool} (h : Host) (i : ℕ) {m : Manager}
    → IsManager held m
    → IsManager held (time_out h i m)
unfolding time_out
time_out-IsManager h i {m} v =
    choose-IsManager (is_older 150 h.now (peer_at m i)) _ _
      (act-IsManager h.now _ (put_peer-IsManager i _ v)) v

keep_peers-IsManager :
    {held : Bool} (h : Host) (n i : ℕ) {m : Manager}
    → IsManager held m
    → IsManager held (keep_peers h n i m)
unfolding keep_peers keep_peer
keep_peers-IsManager h zero i v = v
keep_peers-IsManager h (suc n) i {m} v = keep_peers-IsManager h n (suc i) (
    choose-IsManager (is_established (peer_at m i).state) _ _
      (time_out-IsManager h i (probe-IsManager h i v)) v)

pub keepalive-IsManager :
    (h : Host) {m : Manager} → IsManager false m → AtEnd (IsManager false) (keepalive h m)
unfolding keepalive
keepalive-IsManager h {m} v =
    AtEnd-then _ (lock m) _ (lock-IsManager v)
      λ m1 v1. AtEnd-done _ (unlock-IsManager (keep_peers-IsManager h m1.peer_count 0 v1))
