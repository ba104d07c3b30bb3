-- ===== src/State/Valid.antt =====
-- The invariant of the static data of state_manager.c, and what keeps it.
use orcashi.Prelude.{
  ℕ, suc, ◌+◌, ◌-◌, ◌≤◌, ◌<◌, ◌≡◌, ◌≢◌, sym, ap, subst, ◌∙◌, ℤ, true, false, none, some, [], ◌∷◌,
  ◌++◌, arith, length, get_or, set, take, erase_idx, length-set, length-take, take-set_next, All,
  All-append, All-set, All-erase_idx, All-get_or, get_or-take, Bool-cases, Option-cases, inl, inr,
  leb,
}
use orcashi.CString.Text.{Bytes, is_empty}
use orcashi.State.Types.{
  Peer, zero_peer, PeerState, Store, max_peers, max_ghost_messages, max_messages,
}
use orcashi.State.Ids.{normalize_id, normalize_id-IsNormal, is_same_id, IsNormal}
use orcashi.State.Peers.{
  find_peer, peer_at, put_peer, state_get_peer, fresh_peer, state_add_peer, state_update_peer,
  state_remove_peer, updated_peer, shift_left,
}
use orcashi.State.Fields.{with_peer}
use orcashi.State.Table.{
  lookup, IsFresh, IsUnique, Found, find_peer-Found, IsUnique-append, IsUnique-set,
  IsUnique-erase_idx,
}
use orcashi.State.Live.{live, live-put_peer, take-shift_left, length-shift_left}

-- An id as `state_add_peer` stores it.
abbrev pub IsPeerId : Bytes → Type 0
IsPeerId id = IsNormal id × (id ≢ [])

-- Every array has all its slots, no count passes its array, and the ids in use are normal and
-- name different peers.
pub record IsValid (s : Store) : Type 0 where
  pub slots : length s.peers ≡ max_peers
  pub count_in : s.peer_count ≤ max_peers
  pub ghost_slots : length s.ghosts ≡ max_ghost_messages
  pub ghosts_in : s.ghost_count ≤ max_ghost_messages
  pub message_slots : length s.messages ≡ max_messages
  pub messages_in : s.message_count ≤ max_messages
  pub unique : IsUnique (live s)
  pub normal : All (λ p. IsPeerId p.id) (live s)

pub length-live : {s : Store} → IsValid s → length (live s) ≡ s.peer_count
length-live {s} v = omega (arith, length-take s.peer_count s.peers)

-- What a scan that succeeds has found.
abbrev pub IsFoundAt : Store → Bytes → ℕ → Type 0
IsFoundAt s id i =
    (i < s.peer_count)
    × (is_same_id (peer_at s i).id id ≡ true)
    × (lookup (live s) id ≡ some (peer_at s i))

pub found_at :
    {s : Store} (id : Bytes) (i : ℕ)
    → IsValid s
    → find_peer s.peer_count s.peers id ≡ some i
    → IsFoundAt s id i
found_at {s} id i v e =
    let (lt, same, at) = subst (Found (live s) id) e (find_peer-Found s.peer_count s.peers id) in
    let i_in : i < s.peer_count = omega (arith, length-live v) in
    let here = get_or-take s.peers s.peer_count i zero_peer i_in in
    (
      i_in,
      subst (λ p. is_same_id p.id id ≡ true) here same,
      subst (λ p. lookup (live s) id ≡ some p) here at,
    )

pub IsFresh-at :
    (s : Store) (id : Bytes) → find_peer s.peer_count s.peers id ≡ none → IsFresh id (live s)
IsFresh-at s id e = subst (Found (live s) id) e (find_peer-Found s.peer_count s.peers id)

-- Writing a slot in use, with its id kept.
pub put_peer-IsValid :
    {s : Store} (i : ℕ) (p : Peer)
    → IsValid s
    → i < s.peer_count
    → p.id ≡ (peer_at s i).id
    → IsValid (put_peer s i p)
put_peer-IsValid {s} i p v h e = record {
  count_in = v.count_in;
  ghost_slots = v.ghost_slots;
  ghosts_in = v.ghosts_in;
  message_slots = v.message_slots;
  messages_in = v.messages_in;
  slots = length-set s.peers i p ∙ v.slots;
  unique =
      subst IsUnique (sym (live-put_peer s i p))
        (IsUnique-set (live s) i p v.unique (omega (arith, length-live v)) (e ∙ sym here));
  normal = subst (All (λ q. IsPeerId q.id)) (sym (live-put_peer s i p)) (
      All-set _ (live s) i p v.normal (
        subst IsPeerId (sym (e ∙ sym here))
          (All-get_or _ (live s) i zero_peer v.normal (omega (arith, length-live v)))));
}
  where
    here : (get_or (live s) i zero_peer).id ≡ (peer_at s i).id
    here = ap (λ q. q.id) (get_or-take s.peers s.peer_count i zero_peer h)

-- An operation that finds a peer and rewrites it, its id apart, keeps the invariant.
pub with_peer-IsValid :
    {s : Store} (id : Bytes) (write : Peer → Peer)
    → ((p : Peer) → (write p).id ≡ p.id)
    → IsValid s
    → IsValid (with_peer id write s).1
unfolding with_peer state_get_peer
with_peer-IsValid {s} id write keeps v = elim (Bool-cases (is_empty (normalize_id id))) [
  | inl e ↦ rw (e, with_peer) v
  | inr e ↦ elim (Option-cases (find_peer s.peer_count s.peers (normalize_id id))) [
    | inl f ↦ rw (e, f, with_peer) v
    | inr (i, f) ↦
        rw (e, f, with_peer)
          (put_peer-IsValid i (write (peer_at s i)) v (found_at (normalize_id id) i v f).0
            (keeps (peer_at s i)))
  ]
]

-- `state_update_peer` is such an operation.
pub update_peer-with_peer :
    (id : Bytes) (state : PeerState) (now : ℤ) (s : Store)
    → state_update_peer id state now s ≡ with_peer id (updated_peer state now) s
unfolding state_update_peer with_peer state_get_peer
update_peer-with_peer id state now s = ground arith

not_empty : (s : Bytes) → is_empty s ≡ false → s ≢ []
not_empty [] h = λ e. cc
not_empty (c ∷ s) h = λ e. cc

IsPeerId-normalize_id :
    (id : Bytes) → is_empty (normalize_id id) ≡ false → IsPeerId (normalize_id id)
IsPeerId-normalize_id id h = (normalize_id-IsNormal id, not_empty (normalize_id id) h)

-- The slots in use after a peer is added behind them.
pub live_added :
    (s : Store) (p : Peer)
    → s.peer_count < length s.peers
    → live (record s { peers = set s.peers s.peer_count p; peer_count = s.peer_count + 1 })
      ≡ live s ++ (p ∷ [])
live_added s p h =
    ap (λ n. take n (set s.peers s.peer_count p)) {x = s.peer_count + 1} {y = suc s.peer_count}
      (omega arith)
    ∙ take-set_next s.peer_count s.peers p h

added-IsValid :
    {s : Store} (p : Peer)
    → IsValid s
    → s.peer_count < max_peers
    → IsPeerId p.id
    → IsFresh p.id (live s)
    → IsValid (record s { peers = set s.peers s.peer_count p; peer_count = s.peer_count + 1 })
added-IsValid {s} p v room good fresh = record {
  slots = length-set s.peers s.peer_count p ∙ v.slots;
  count_in = omega arith;
  ghost_slots = v.ghost_slots;
  ghosts_in = v.ghosts_in;
  message_slots = v.message_slots;
  messages_in = v.messages_in;
  unique = subst IsUnique (sym longer) (IsUnique-append (live s) p v.unique fresh);
  normal =
      subst (All (λ q. IsPeerId q.id)) (sym longer)
        (All-append _ (live s) (p ∷ []) v.normal (good, tt));
}
  where
    longer :
        live (record s { peers = set s.peers s.peer_count p; peer_count = s.peer_count + 1 })
        ≡ live s ++ (p ∷ [])
    longer = live_added s p (omega (arith, v.slots))

pub add_peer-IsValid :
    {s : Store} (id : Bytes) (now : ℤ) → IsValid s → IsValid (state_add_peer id now s).1
unfolding state_add_peer
add_peer-IsValid {s} id now v = elim (Bool-cases (is_empty (normalize_id id))) [
  | inl e ↦ rw e v
  | inr e ↦ elim (Option-cases (find_peer s.peer_count s.peers (normalize_id id))) [
    | inr (i, f) ↦ rw (e, f, state_add_peer) v
    | inl f ↦ elim (Bool-cases (leb max_peers s.peer_count)) [
      | inl full ↦ rw (e, f, full, state_add_peer) v
      | inr room ↦
          rw (e, f, room, state_add_peer)
            (added-IsValid (fresh_peer (peer_at s s.peer_count) (normalize_id id) now) v
              (ground arith) (IsPeerId-normalize_id id e) (IsFresh-at s (normalize_id id) f))
    ]
  ]
]

-- The slots in use after the one at `i` is removed.
pub live_removed :
    {s : Store} (i : ℕ)
    → IsValid s
    → i < s.peer_count
    → live (record s {
      peers = shift_left (s.peer_count - 1 - i) i s.peers;
      peer_count = s.peer_count - 1;
    })
      ≡ erase_idx (live s) i
live_removed {s} i v h = take-shift_left s.peer_count i s.peers h (omega arith)

pub remove_peer-IsValid : {s : Store} (id : Bytes) → IsValid s → IsValid (state_remove_peer id s).1
unfolding state_remove_peer
remove_peer-IsValid {s} id v = elim (Bool-cases (is_empty (normalize_id id))) [
  | inl e ↦ rw e v
  | inr e ↦ elim (Option-cases (find_peer s.peer_count s.peers (normalize_id id))) [
    | inl f ↦ rw (e, f, state_remove_peer) v
    | inr (i, f) ↦
        let lt = (found_at (normalize_id id) i v f).0 in
        rw (e, f, state_remove_peer)
          (record {
            slots = length-shift_left (s.peer_count - 1 - i) i s.peers ∙ v.slots;
            count_in = omega arith;
            ghost_slots = v.ghost_slots;
            ghosts_in = v.ghosts_in;
            message_slots = v.message_slots;
            messages_in = v.messages_in;
            unique =
                subst IsUnique (sym (live_removed i v lt)) (IsUnique-erase_idx (live s) i v.unique);
            normal =
                subst (All (λ q. IsPeerId q.id)) (sym (live_removed i v lt))
                  (All-erase_idx _ (live s) i v.normal);
          })
  ]
]
