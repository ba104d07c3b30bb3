-- ===== src/State/Counts.antt =====
-- The operations on ghost messages, and the counter that each peer keeps of its own.
use orcashi.Prelude.{
  ℕ, ◌+◌, ◌≤◌, ◌≡◌, refl, sym, ap, ◌∙◌, ℤ, sub_nat, at_least_zero, true, false, [], ◌++◌,
  append-nil, map, arith, length, Bool-cases, Option-cases, inl, inr, if◌then◌else◌,
}
use orcashi.CString.Text.{Bytes, is_empty}
use orcashi.Events.Queue.{EventQueue, event_queue_size}
use orcashi.Events.Ring
use orcashi.Events.Ring.{pending}
use orcashi.State.Types.{Store, max_ghost_messages}
use orcashi.State.Ids.{
  normalize_id, is_same_id, is_same_id_iff, is_same_id_refl, is_same_id_sym, is_same_id-normalize,
}
use orcashi.State.Peers.{find_peer}
use orcashi.State.Ghosts.{
  count_due, deliver_due, delivery_event, adjust_ghost_count, state_deliver_ghost_messages,
  state_get_ghost_count, state_get_ghost_messages, collect_due,
}
use orcashi.State.Delivery.{delivered-count, count_due-deliver, pending-deliver, dropped-deliver}

-- Changing the counter of a peer leaves the messages alone.
pub adjust-ghosts :
    (id : Bytes) (change : ℤ → ℤ) (s : Store)
    → let s' = adjust_ghost_count id change s in
      (s'.ghosts ≡ s.ghosts)
      × (s'.ghost_count ≡ s.ghost_count)
      × (s'.peer_count ≡ s.peer_count)
      × (s'.messages ≡ s.messages)
      × (s'.message_count ≡ s.message_count)
unfolding adjust_ghost_count
adjust-ghosts id change s = elim (Option-cases (find_peer s.peer_count s.peers id)) [
  | inl e ↦ rw (e, adjust_ghost_count) (refl, refl, refl, refl, refl)
  | inr (i, e) ↦ rw (e, adjust_ghost_count) (refl, refl, refl, refl, refl)
]

-- The number of messages depends on the slots alone.
count_of :
    (s s' : Store) (id : Bytes)
    → s'.ghosts ≡ s.ghosts
    → s'.ghost_count ≡ s.ghost_count
    → state_get_ghost_count s' id ≡ state_get_ghost_count s id
unfolding state_get_ghost_count
count_of s s' id p q = rw (p, q)

pub count_same :
    (s : Store) (a b : Bytes)
    → is_same_id a b ≡ true
    → state_get_ghost_count s a ≡ state_get_ghost_count s b
unfolding state_get_ghost_count
count_same s a b h = rw ((is_same_id_iff a b).0 h)

pub deliver_empty :
    (to_id : Bytes) (now : ℤ) (s : Store) (q : EventQueue)
    → is_empty (normalize_id to_id) ≡ true
    → state_deliver_ghost_messages to_id now s q ≡ (0, s, q)
unfolding state_deliver_ghost_messages
deliver_empty to_id now s q e = rw (e, state_deliver_ghost_messages)

-- The store behind a delivery.
abbrev pub delivered_store : Bytes → ℤ → Store → EventQueue → Store
delivered_store to_id now s q =
    let (gs, n, q') = deliver_due (normalize_id to_id) now s.ghost_count s.ghosts q in
    adjust_ghost_count (normalize_id to_id) (λ k. at_least_zero (sub_nat k n))
      (record s { ghosts = gs })

pub deliver_some :
    (to_id : Bytes) (now : ℤ) (s : Store) (q : EventQueue)
    → is_empty (normalize_id to_id) ≡ false
    → state_deliver_ghost_messages to_id now s q ≡ (
      (deliver_due (normalize_id to_id) now s.ghost_count s.ghosts q).1,
      delivered_store to_id now s q,
      (deliver_due (normalize_id to_id) now s.ghost_count s.ghosts q).2,
    )
unfolding state_deliver_ghost_messages
deliver_some to_id now s q e = rw (e, state_deliver_ghost_messages)

pub same_normal : (a b : Bytes) → is_same_id (normalize_id a) (normalize_id b) ≡ is_same_id a b
same_normal a b =
    is_same_id-normalize (normalize_id a) b
    ∙ is_same_id_sym (normalize_id a) b
    ∙ is_same_id-normalize b a
    ∙ is_same_id_sym b a

pub count-slots :
    (to_id other : Bytes) (now : ℤ) (s : Store) (q : EventQueue)
    → state_get_ghost_count
        (record s { ghosts = (deliver_due (normalize_id to_id) now s.ghost_count s.ghosts q).0 })
        other
      ≡ (if is_same_id to_id other then 0 else state_get_ghost_count s other)
unfolding state_get_ghost_count
count-slots to_id other now s q = ground (
  arith,
  count_due-deliver (normalize_id to_id) (normalize_id other) now s.ghost_count s.ghosts q,
  same_normal to_id other,
)

count-delivered_store :
    (to_id other : Bytes) (now : ℤ) (s : Store) (q : EventQueue)
    → state_get_ghost_count (delivered_store to_id now s q) other
      ≡ (if is_same_id to_id other then 0 else state_get_ghost_count s other)
count-delivered_store to_id other now s q =
    let slots : Store = record s {
      ghosts = (deliver_due (normalize_id to_id) now s.ghost_count s.ghosts q).0;
    } in
    let n = (deliver_due (normalize_id to_id) now s.ghost_count s.ghosts q).1 in
    let kept = adjust-ghosts (normalize_id to_id) (λ k. at_least_zero (sub_nat k n)) slots in
    count_of slots (delivered_store to_id now s q) other kept.0 kept.1
    ∙ count-slots to_id other now s q

-- An id that is empty without its brackets has no messages, nor has any other spelling of it.
count_empty :
    (s : Store) (id : Bytes) → is_empty (normalize_id id) ≡ true → state_get_ghost_count s id ≡ 0
unfolding state_get_ghost_count
count_empty s id e = rw e

count_unless :
    (s : Store) (a b : Bytes)
    → state_get_ghost_count s a ≡ 0
    → state_get_ghost_count s b ≡ (if is_same_id a b then 0 else state_get_ghost_count s b)
count_unless s a b e = ground (arith, count_same s a b)

pub count_some :
    (s : Store) (id : Bytes)
    → is_empty (normalize_id id) ≡ false
    → state_get_ghost_count s id ≡ count_due (normalize_id id) s.ghost_count s.ghosts
unfolding state_get_ghost_count
count_some s id e = rw e

-- `state_deliver_ghost_messages` returns the number of messages that were waiting for the peer.
-- Afterwards none is waiting for it, under any spelling of its id, and as many as before for every
-- other id.
pub deliver-counts :
    (to_id other : Bytes) (now : ℤ) (s : Store) (q : EventQueue)
    → let (n, s', q') = state_deliver_ghost_messages to_id now s q in
      (n ≡ state_get_ghost_count s to_id)
      × (state_get_ghost_count s' other
          ≡ (if is_same_id to_id other then 0 else state_get_ghost_count s other))
deliver-counts to_id other now s q = elim (Bool-cases (is_empty (normalize_id to_id))) [
  | inl e ↦
      rw (deliver_empty to_id now s q e)
        (sym (count_empty s to_id e), count_unless s to_id other (count_empty s to_id e))
  | inr e ↦ rw (deliver_some to_id now s q e) (
    delivered-count (normalize_id to_id) now s.ghost_count s.ghosts q ∙ sym (count_some s to_id e),
    count-delivered_store to_id other now s q,
  )
]

get_some :
    (s : Store) (id : Bytes) (max : ℕ)
    → is_empty (normalize_id id) ≡ false
    → state_get_ghost_messages s id max ≡ collect_due (normalize_id id) s.ghost_count max s.ghosts
unfolding state_get_ghost_messages
get_some s id max e = rw e

get_empty :
    (s : Store) (id : Bytes) (max : ℕ)
    → is_empty (normalize_id id) ≡ true
    → state_get_ghost_messages s id max ≡ []
unfolding state_get_ghost_messages
get_empty s id max e = rw e

-- Where the event queue has room for all the messages that wait, delivering puts one event for each
-- at its end, in the order in which `state_get_ghost_messages` lists them.
pub deliver-events :
    (to_id : Bytes) (now : ℤ) (s : Store) (q : EventQueue)
    → Ring.IsValid q
    → s.ghost_count ≤ max_ghost_messages
    → length (pending q) + state_get_ghost_count s to_id ≤ event_queue_size
    → pending (state_deliver_ghost_messages to_id now s q).2
      ≡ pending q
        ++ map
            (delivery_event (normalize_id to_id) now)
            (state_get_ghost_messages s to_id max_ghost_messages)
deliver-events to_id now s q v slots room = elim (Bool-cases (is_empty (normalize_id to_id))) [
  | inl e ↦
      rw (deliver_empty to_id now s q e, get_empty s to_id max_ghost_messages e)
        (sym (append-nil (pending q)))
  | inr e ↦
      rw (deliver_some to_id now s q e, get_some s to_id max_ghost_messages e)
        (pending-deliver (normalize_id to_id) now s.ghost_count max_ghost_messages s.ghosts q v
          slots (rw (count_some s to_id e) at room))
]

-- With the event queue full, the messages are still marked as delivered, so that none waits any
-- more, and no event reaches the queue: their text is lost to the peer.
deliver_when_full :
    (to_id : Bytes) (now : ℤ) (s : Store) (q : EventQueue)
    → event_queue_size ≤ q.count
    → let (n, s', q') = state_deliver_ghost_messages to_id now s q in
      (n ≡ state_get_ghost_count s to_id) × (state_get_ghost_count s' to_id ≡ 0) × (q' ≡ q)
deliver_when_full to_id now s q full =
    let (n, none_left) = deliver-counts to_id to_id now s q in
    (
      n,
      none_left ∙ ap (λ b. if b then 0 else state_get_ghost_count s to_id) (is_same_id_refl to_id),
      unchanged,
    )
  where
    unchanged : (state_deliver_ghost_messages to_id now s q).2 ≡ q
    unchanged = elim (Bool-cases (is_empty (normalize_id to_id))) [
      | inl e ↦ rw (deliver_empty to_id now s q e)
      | inr e ↦
          rw (deliver_some to_id now s q e)
            (dropped-deliver (normalize_id to_id) now s.ghost_count s.ghosts q full)
    ]
