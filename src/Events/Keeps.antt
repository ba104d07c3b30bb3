-- ===== src/Events/Keeps.antt =====
-- Every call keeps the invariants of the store, of the counters and of the queue.
use orcashi.Prelude.{
  ℕ, zero, suc, ◌≡◌, ◌<◌, ◌+◌, refl, sym, subst, ◌∙◌, ℤ, List, [], ◌∷◌, arith, length,
  length-replicate, length-set, Code, leb, Bool-cases, inl, inr, none,
}
use orcashi.CString.Text.{Bytes, is_empty}
use orcashi.Events.Queue.{EventQueue, empty_queue}
use orcashi.Events.Ring
use orcashi.Events.Ring.{push-IsValid, empty_queue-IsValid}
use orcashi.Events.World.{
  World, Call, call, add_peer, remove_peer, update_last_seen, deliver_ghost_messages, update_peer,
  set_online, set_busy, set_secure, set_ip, set_name, set_public_key, add_message, set_port,
  add_ghost_message, push_event,
}
use orcashi.State.Types.{
  Store, Peer, zero_store, state_init, zero_peer, PeerState, zero_ghost, GhostMessage, max_peers,
  max_messages, max_ghost_messages,
}
use orcashi.State.Ids.{normalize_id, is_same_id}
use orcashi.State.Peers.{
  state_update_peer, updated_peer, state_add_peer, state_remove_peer, state_get_peer, find_peer,
}
use orcashi.State.Fields.{with_peer}
use orcashi.State.Ghosts.{
  state_add_message, deliver_due, state_deliver_ghost_messages, delivery_event,
  state_get_ghost_count, is_due,
}
use orcashi.State.Counts.{deliver_empty, deliver_some}
use orcashi.State.Valid.{
  IsValid, with_peer-IsValid, add_peer-IsValid, remove_peer-IsValid, update_peer-with_peer,
}
use orcashi.State.View.{view}
use orcashi.State.Change.{Adds, add_peer-Adds, Removes, remove_peer-Removes}
use orcashi.State.Setters.{Setter, apply, written, apply-with_peer, written-keeps}
use orcashi.State.Tracked.{IsTracked, TracksAt, with_peer-IsTracked, count_of_slots}
use orcashi.State.Sending.{
  add_ghost_message-IsValid, add_ghost_message-IsTracked, deliver-IsValid, deliver-IsTracked,
}

pub record IsSound (w : World) : Type 0 where
  pub valid : IsValid w.store
  pub tracked : IsTracked w.store
  pub ring : Ring.IsValid w.queue

-- Both invariants of the store.
abbrev Good : Store → Type 0
Good s = IsValid s × IsTracked s

with_peer-Good :
    {s : Store} (id : Bytes) (write : Peer → Peer)
    → ((p : Peer) → (write p).id ≡ p.id)
    → ((p : Peer) → (write p).ghost_count ≡ p.ghost_count)
    → Good s
    → Good (with_peer id write s).1
with_peer-Good id write p q (v, t) =
    (with_peer-IsValid id write p v, with_peer-IsTracked id write p q v t)

setter-Good : {s : Store} (w : Setter) (id : Bytes) (now : ℤ) → Good s → Good (apply w id now s).1
setter-Good {s} w id now g =
    subst (λ r. Good r.1) (sym (apply-with_peer w id now s))
      (with_peer-Good id (written w now) (λ p. (written-keeps w now p).0)
        (λ p. (written-keeps w now p).1) g)

add_peer-ghosts :
    (id : Bytes) (now : ℤ) (s : Store)
    → ((state_add_peer id now s).1.ghosts ≡ s.ghosts)
      × ((state_add_peer id now s).1.ghost_count ≡ s.ghost_count)
unfolding state_add_peer
add_peer-ghosts id now s = ground arith

remove_peer-ghosts :
    (id : Bytes) (s : Store)
    → ((state_remove_peer id s).1.ghosts ≡ s.ghosts)
      × ((state_remove_peer id s).1.ghost_count ≡ s.ghost_count)
unfolding state_remove_peer
remove_peer-ghosts id s = ground arith

Adds-TracksAt :
    {s : Store} (id : Bytes) (now : ℤ) (other : Bytes) (r : Code × Store)
    → IsTracked s
    → state_get_ghost_count r.1 other ≡ state_get_ghost_count s other
    → Adds id now other s r
    → TracksAt (view r.1 other) (state_get_ghost_count r.1 other)
Adds-TracksAt {s} id now other r t c (inl (e, same, why)) =
    subst (λ s'. TracksAt (view s' other) (state_get_ghost_count s' other)) (sym same) (t other)
Adds-TracksAt {s} id now other r t c (inr (inl (e, same, known))) =
    subst (λ s'. TracksAt (view s' other) (state_get_ghost_count s' other)) (sym same) (t other)
Adds-TracksAt {s} id now other r t c (inr (inr (e, absent, count, at))) =
    rw (at, c)
      (elim (Bool-cases (is_same_id id other)) [
        | inl same ↦ rw same (omega arith)
        | inr differ ↦ rw differ (t other)
      ])

Removes-TracksAt :
    {s : Store} (id other : Bytes) (r : Code × Store)
    → IsTracked s
    → state_get_ghost_count r.1 other ≡ state_get_ghost_count s other
    → Removes id other s r
    → TracksAt (view r.1 other) (state_get_ghost_count r.1 other)
Removes-TracksAt {s} id other r t c (inl (e, absent, same)) =
    subst (λ s'. TracksAt (view s' other) (state_get_ghost_count s' other)) (sym same) (t other)
Removes-TracksAt {s} id other r t c (inr (e, known, count, at)) =
    rw (at, c)
      (elim (Bool-cases (is_same_id id other)) [
        | inl same ↦ rw same tt
        | inr differ ↦ rw differ (t other)
      ])

add_peer-Good : {s : Store} (id : Bytes) (now : ℤ) → Good s → Good (state_add_peer id now s).1
add_peer-Good {s} id now (v, t) =
    let (same, count) = add_peer-ghosts id now s in
    (
      add_peer-IsValid id now v,
      λ other.
          Adds-TracksAt id now other (state_add_peer id now s) t
            (count_of_slots s (state_add_peer id now s).1 other same count)
            (add_peer-Adds id now other v),
    )

remove_peer-Good : {s : Store} (id : Bytes) → Good s → Good (state_remove_peer id s).1
remove_peer-Good {s} id (v, t) =
    let (same, count) = remove_peer-ghosts id s in
    (
      remove_peer-IsValid id v,
      λ other.
          Removes-TracksAt id other (state_remove_peer id s) t
            (count_of_slots s (state_remove_peer id s).1 other same count)
            (remove_peer-Removes id other v),
    )

update_peer-Good :
    {s : Store} (id : Bytes) (state : PeerState) (now : ℤ)
    → Good s
    → Good (state_update_peer id state now s).1
update_peer-Good {s} id state now g =
    subst (λ r. Good r.1) (sym (update_peer-with_peer id state now s))
      (with_peer-Good id (updated_peer state now) (λ p. refl) (λ p. refl) g)

logged-IsValid :
    {s : Store} (ms : List Bytes)
    → IsValid s
    → length ms ≡ max_messages
    → s.message_count < max_messages
    → IsValid (record s { messages = ms; message_count = s.message_count + 1 })
logged-IsValid ms v e room = record {
  slots = v.slots;
  count_in = v.count_in;
  ghost_slots = v.ghost_slots;
  ghosts_in = v.ghosts_in;
  message_slots = e;
  messages_in = omega arith;
  unique = v.unique;
  normal = v.normal;
}

-- The log is no part of what the peers and the messages say.
add_message-Good : {s : Store} (id text : Bytes) → Good s → Good (state_add_message id text s).1
unfolding state_add_message state_get_peer state_get_ghost_count
add_message-Good {s} id text (v, t) = elim (Bool-cases (leb max_messages s.message_count)) [
  | inl full ↦ rw full (v, t)
  | inr room ↦ rw room (
    logged-IsValid _ v (length-set s.messages s.message_count _ ∙ v.message_slots) (ground arith),
    t,
  )
]

deliver_due-IsValid :
    (id : Bytes) (now : ℤ) (n : ℕ) (gs : List GhostMessage) {q : EventQueue}
    → Ring.IsValid q
    → Ring.IsValid (deliver_due id now n gs q).2
unfolding deliver_due
deliver_due-IsValid id now zero gs v = v
deliver_due-IsValid id now (suc n) [] v = v
deliver_due-IsValid id now (suc n) (g ∷ gs) {q} v = elim (Bool-cases (is_due id g)) [
  | inl hit ↦
      rw (hit, deliver_due)
        (deliver_due-IsValid id now n gs (push-IsValid (delivery_event id now g) v))
  | inr miss ↦ rw (miss, deliver_due) (deliver_due-IsValid id now n gs v)
]

deliver-ring :
    (id : Bytes) (now : ℤ) (s : Store) {q : EventQueue}
    → Ring.IsValid q
    → Ring.IsValid (state_deliver_ghost_messages id now s q).2
deliver-ring id now s {q} v = elim (Bool-cases (is_empty (normalize_id id))) [
  | inl e ↦ rw (deliver_empty id now s q e) v
  | inr e ↦
      rw (deliver_some id now s q e)
        (deliver_due-IsValid (normalize_id id) now s.ghost_count s.ghosts v)
]

on_store-IsSound : {w : World} (s : Store) → IsSound w → Good s → IsSound (record w { store = s })
on_store-IsSound s h (v, t) = record { valid = v; tracked = t; ring = h.ring }

-- Every call of the state manager, and every push, keeps the store valid, each peer's counter at
-- most the number of messages that wait for it, and the queue a valid ring.
pub call-IsSound : {w : World} (now : ℤ) (c : Call) → IsSound w → IsSound (call now c w)
unfolding call
call-IsSound now (add_peer id) h = on_store-IsSound _ h (add_peer-Good id now (h.valid, h.tracked))
call-IsSound now (remove_peer id) h =
    on_store-IsSound _ h (remove_peer-Good id (h.valid, h.tracked))
call-IsSound now (update_peer id state) h =
    on_store-IsSound _ h (update_peer-Good id state now (h.valid, h.tracked))
call-IsSound now (update_last_seen id) h =
    on_store-IsSound _ h (setter-Good Setter.last_seen id now (h.valid, h.tracked))
call-IsSound now (set_online id b) h =
    on_store-IsSound _ h (setter-Good (Setter.online b) id now (h.valid, h.tracked))
call-IsSound now (set_busy id b) h =
    on_store-IsSound _ h (setter-Good (Setter.busy b) id now (h.valid, h.tracked))
call-IsSound now (set_secure id b) h =
    on_store-IsSound _ h (setter-Good (Setter.secure b) id now (h.valid, h.tracked))
call-IsSound now (set_ip id ip) h =
    on_store-IsSound _ h (setter-Good (Setter.ip ip) id now (h.valid, h.tracked))
call-IsSound now (set_name id name) h =
    on_store-IsSound _ h (setter-Good (Setter.name name) id now (h.valid, h.tracked))
call-IsSound now (set_public_key id key) h =
    on_store-IsSound _ h (setter-Good (Setter.public_key key) id now (h.valid, h.tracked))
call-IsSound now (set_port id port) h =
    on_store-IsSound _ h (setter-Good (Setter.port port) id now (h.valid, h.tracked))
call-IsSound now (add_message id text) h =
    on_store-IsSound _ h (add_message-Good id text (h.valid, h.tracked))
call-IsSound now (add_ghost_message id text rand) h = on_store-IsSound _ h (
  add_ghost_message-IsValid id text now rand h.valid,
  add_ghost_message-IsTracked id text now rand h.valid h.tracked,
)
call-IsSound now (push_event e) h = record {
  valid = h.valid;
  tracked = h.tracked;
  ring = push-IsValid e h.ring;
}
call-IsSound {w} now (deliver_ghost_messages id) h = record {
  valid = deliver-IsValid id now w.queue h.valid;
  tracked = deliver-IsTracked id now w.queue h.valid h.tracked;
  ring = deliver-ring id now w.store h.ring;
}

-- The data that `state_init` leaves where there is no state file, and the queue that the program
-- starts with.
abbrev pub init_world : World
init_world = record { store = state_init zero_store; queue = empty_queue }

no_peer : (id : Bytes) → view init_world.store id ≡ none
unfolding state_get_peer find_peer
no_peer id = ground arith

pub init_world-IsSound : IsSound init_world
init_world-IsSound = record {
  valid = record {
    slots = length-replicate max_peers zero_peer;
    count_in = omega arith;
    ghost_slots = length-replicate max_ghost_messages zero_ghost;
    ghosts_in = omega arith;
    message_slots = length-replicate {A = Bytes} max_messages [];
    messages_in = omega arith;
    unique = tt;
    normal = tt;
  };
  tracked = λ id. rw (no_peer id) tt;
  ring = empty_queue-IsValid;
}

-- A history of calls, each with its time.
unfoldable pub run_calls : List (ℤ × Call) → World → World
run_calls [] w = w
run_calls ((now, c) ∷ cs) w = run_calls cs (call now c w)

run_calls-IsSound : (cs : List (ℤ × Call)) {w : World} → IsSound w → IsSound (run_calls cs w)
unfolding run_calls
run_calls-IsSound [] h = h
run_calls-IsSound ((now, c) ∷ cs) h = run_calls-IsSound cs (call-IsSound now c h)

-- So it is after every history of calls from the start.
pub run_calls-init : (cs : List (ℤ × Call)) → IsSound (run_calls cs init_world)
run_calls-init cs = run_calls-IsSound cs init_world-IsSound
