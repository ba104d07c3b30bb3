-- ===== src/State/Change.antt =====
-- `state_add_peer`, `state_update_peer` and `state_remove_peer` as changes of the map of peers.
use orcashi.Prelude.{
  ℕ, ◌+◌, ◌-◌, ◌<◌, ◌≡◌, ◌≢◌, refl, sym, ap, subst, ◌∙◌, ◌⊎◌, ℤ, true, false, none, some, arith,
  set, get_or-take, Code, ok, err, Bool-cases, inl, inr, if◌then◌else◌, leb,
}
use orcashi.CString.Text.{Bytes, is_empty}
use orcashi.State.Types.{Peer, zero_peer, PeerState, Store, max_peers}
use orcashi.State.Ids.{
  normalize_id, is_same_id, is_same_id-normalize, is_same_id_congr, is_same_id_sym,
}
use orcashi.State.Peers.{
  find_peer, peer_at, fresh_peer, state_add_peer, state_update_peer, state_remove_peer,
  updated_peer, shift_left,
}
use orcashi.State.Table.{lookup, IsFresh, lookup-append, lookup-erase_idx}
use orcashi.State.Live.{live}
use orcashi.State.Valid.{
  IsValid, length-live, IsFresh-at, live_added, live_removed, add_peer-IsValid, remove_peer-IsValid,
  update_peer-with_peer,
}
use orcashi.State.View.{
  view, view-lookup, empty, absent, present, sought, Rewrites, with_peer-Rewrites,
}

-- What `state_add_peer` comes to: it fails on an id with nothing but brackets, and for a new id on
-- a full table; a known id is left as it is; a new one gets the next slot.
abbrev pub Adds : Bytes → ℤ → Bytes → Store → Code × Store → Type 0
Adds id now other s (code, s') =
    ((code ≡ err)
      × (s' ≡ s)
      × ((is_empty (normalize_id id) ≡ true) ⊎ ((view s id ≡ none) × (s.peer_count ≡ max_peers))))
    ⊎ ((code ≡ ok) × (s' ≡ s) × (view s id ≢ none))
    ⊎ ((code ≡ ok)
        × (view s id ≡ none)
        × (s'.peer_count ≡ s.peer_count + 1)
        × (view s' other ≡ (
            if is_same_id id other
            then some (fresh_peer (peer_at s s.peer_count) (normalize_id id) now)
            else view s other)))

-- Removing: the peer is no longer found under any spelling of its id, the others are.
abbrev pub Removes : Bytes → Bytes → Store → Code × Store → Type 0
Removes id other s (code, s') =
    ((code ≡ err) × (view s id ≡ none) × (s' ≡ s))
    ⊎ ((code ≡ ok)
        × (view s id ≢ none)
        × (s'.peer_count + 1 ≡ s.peer_count)
        × (view s' other ≡ (if is_same_id id other then none else view s other)))

-- The store after `state_add_peer` has written the next slot.
abbrev added : Bytes → ℤ → Store → Store
added id now s = record s {
  peers = set s.peers s.peer_count (fresh_peer (peer_at s s.peer_count) (normalize_id id) now);
  peer_count = s.peer_count + 1;
}

add_empty :
    (id : Bytes) (now : ℤ) (s : Store)
    → is_empty (normalize_id id) ≡ true
    → state_add_peer id now s ≡ (err, s)
unfolding state_add_peer
add_empty id now s e = rw (e, state_add_peer)

add_known :
    (id : Bytes) (now : ℤ) (s : Store) (i : ℕ)
    → is_empty (normalize_id id) ≡ false
    → find_peer s.peer_count s.peers (normalize_id id) ≡ some i
    → state_add_peer id now s ≡ (ok, s)
unfolding state_add_peer
add_known id now s i e f = rw (e, f, state_add_peer)

add_new :
    (id : Bytes) (now : ℤ) (s : Store)
    → is_empty (normalize_id id) ≡ false
    → find_peer s.peer_count s.peers (normalize_id id) ≡ none
    → state_add_peer id now s
      ≡ (if leb max_peers s.peer_count then (err, s) else (ok, added id now s))
unfolding state_add_peer
add_new id now s e f = rw (e, f, state_add_peer)

is_same_normal : (a b : Bytes) → is_same_id (normalize_id a) b ≡ is_same_id a b
is_same_normal a b =
    is_same_id_sym (normalize_id a) b ∙ is_same_id-normalize b a ∙ is_same_id_sym b a

view-added :
    {s : Store} (id : Bytes) (now : ℤ) (other : Bytes)
    → IsValid s
    → IsValid (added id now s)
    → s.peer_count < max_peers
    → IsFresh (normalize_id id) (live s)
    → view (added id now s) other ≡ (
        if is_same_id id other
        then some (fresh_peer (peer_at s s.peer_count) (normalize_id id) now)
        else view s other)
view-added {s} id now other v v' room fresh =
    view-lookup other v'
    ∙ ap (λ ps. lookup ps other) (live_added s new (omega (arith, v.slots)))
    ∙ lookup-append (live s) new other fresh
    ∙ ap (λ b. if b then some new else lookup (live s) other) (is_same_normal id other)
    ∙ ap (λ o. if is_same_id id other then some new else o) (sym (view-lookup other v))
  where
    new : Peer
    new = fresh_peer (peer_at s s.peer_count) (normalize_id id) now

-- On a valid store `state_add_peer` fails, changing nothing, on an id that is empty without its
-- brackets and on a new id when all 256 slots are in use; it accepts a known id and changes nothing;
-- it adds a new id as the next peer, and every other id finds what it found before.
pub add_peer-Adds :
    {s : Store} (id : Bytes) (now : ℤ) (other : Bytes)
    → IsValid s
    → Adds id now other s (state_add_peer id now s)
add_peer-Adds {s} id now other v = elim (sought id v) [
  | empty e at ↦ subst (Adds id now other s) (sym (add_empty id now s e)) (inl (refl, refl, inl e))
  | present i e f lt same at ↦
      subst (Adds id now other s) (sym (add_known id now s i e f)) (inr (inl (refl, refl, λ h. cc)))
  | absent e f at ↦ elim (Bool-cases (leb max_peers s.peer_count)) [
    | inl full ↦
        subst (Adds id now other s) (sym (rw (add_new id now s e f, full) refl))
          (inl (refl, refl, inr (at, ground (arith, v.count_in))))
    | inr room ↦
        let step : state_add_peer id now s ≡ (ok, added id now s) =
          rw (add_new id now s e f, room) refl in
        subst (Adds id now other s) (sym step) (
          inr (
            inr (
              refl,
              at,
              refl,
              view-added id now other v (subst (λ r. IsValid r.1) step (add_peer-IsValid id now v))
                  (ground arith) (IsFresh-at s (normalize_id id) f),
            )))
  ]
]

-- `state_update_peer` fails, changing nothing, where there is no such peer; else it sets the state
-- and `last_seen` of that peer, with `friend_since` where the state is PEER_FRIEND, and every other
-- id finds what it found before.
pub update_peer-Rewrites :
    {s : Store} (id : Bytes) (state : PeerState) (now : ℤ) (other : Bytes)
    → IsValid s
    → Rewrites id (updated_peer state now) other s (state_update_peer id state now s)
update_peer-Rewrites {s} id state now other v =
    subst (Rewrites id (updated_peer state now) other s)
      (sym (update_peer-with_peer id state now s))
      (with_peer-Rewrites id (updated_peer state now) other (λ p. refl) v)

remove_unknown :
    (id : Bytes) (s : Store)
    → (is_empty (normalize_id id) ≡ true)
      ⊎ ((is_empty (normalize_id id) ≡ false)
          × (find_peer s.peer_count s.peers (normalize_id id) ≡ none))
    → state_remove_peer id s ≡ (err, s)
unfolding state_remove_peer
remove_unknown id s (inl e) = rw (e, state_remove_peer)
remove_unknown id s (inr (e, f)) = rw (e, f, state_remove_peer)

abbrev pub removed : ℕ → Store → Store
removed i s = record s {
  peers = shift_left (s.peer_count - 1 - i) i s.peers;
  peer_count = s.peer_count - 1;
}

pub remove_known :
    (id : Bytes) (s : Store) (i : ℕ)
    → is_empty (normalize_id id) ≡ false
    → find_peer s.peer_count s.peers (normalize_id id) ≡ some i
    → state_remove_peer id s ≡ (ok, removed i s)
unfolding state_remove_peer
remove_known id s i e f = rw (e, f, state_remove_peer)

view-removed :
    {s : Store} (id : Bytes) (i : ℕ) (other : Bytes)
    → IsValid s
    → IsValid (removed i s)
    → i < s.peer_count
    → is_same_id (peer_at s i).id id ≡ true
    → view (removed i s) other ≡ (if is_same_id id other then none else view s other)
view-removed {s} id i other v v' lt same =
    view-lookup other v'
    ∙ ap (λ ps. lookup ps other) (live_removed i v lt)
    ∙ lookup-erase_idx (live s) i other v.unique (omega (arith, length-live v))
    ∙ ap (λ p. if is_same_id p.id other then none else lookup (live s) other)
        (get_or-take s.peers s.peer_count i zero_peer lt)
    ∙ ap (λ b. if b then none else lookup (live s) other)
        (is_same_id_congr (peer_at s i).id id other same)
    ∙ ap (λ o. if is_same_id id other then none else o) (sym (view-lookup other v))

-- `state_remove_peer` fails, changing nothing, where there is no such peer; else the peer is gone,
-- the count is one less, and every other id finds what it found before.
pub remove_peer-Removes :
    {s : Store} (id other : Bytes) → IsValid s → Removes id other s (state_remove_peer id s)
remove_peer-Removes {s} id other v = elim (sought id v) [
  | empty e at ↦
      subst (Removes id other s) (sym (remove_unknown id s (inl e))) (inl (refl, at, refl))
  | absent e f at ↦
      subst (Removes id other s) (sym (remove_unknown id s (inr (e, f)))) (inl (refl, at, refl))
  | present i e f lt same at ↦
      let step = remove_known id s i e f in
      subst (Removes id other s) (sym step) (
        inr (
          refl,
          (λ h. cc),
          omega arith,
          view-removed id i other v (subst (λ r. IsValid r.1) step (remove_peer-IsValid id v)) lt
              same,
        ))
]
