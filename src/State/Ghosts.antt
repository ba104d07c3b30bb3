-- ===== src/State/Ghosts.antt =====
-- state_manager.c: ghost messages, which wait for a peer that is away, and the message log.
-- Delivering pushes one event for each message onto the event queue.
use orcashi.Prelude.{
  ℕ, zero, suc, ◌+◌, ◌%◌, ℤ, pos, add_nat, sub_nat, at_least_zero, Bool, true, false, ◌&&◌, not,
  none, some, List, [], ◌∷◌, ◌++◌, ltb, leb, if◌then◌else◌, Code, ok, err, get_or, set,
}
use orcashi.CString.Text.{Bytes, is_empty, codes, fit}
use orcashi.CString.Number.{show_nat, show_int}
use orcashi.Events.Types.{Event, event_create, ghost_delivered}
use orcashi.Events.Queue.{EventQueue, event_queue_push}
use orcashi.State.Types.{GhostMessage, zero_ghost, Store, max_ghost_messages, max_messages}
use orcashi.State.Ids.{normalize_id, is_same_id}
use orcashi.State.Peers.{find_peer, peer_at, put_peer}

-- The loop that changes `ghost_count` of the first peer with the id, and stops there.
unfoldable pub adjust_ghost_count : Bytes → (ℤ → ℤ) → Store → Store
adjust_ghost_count norm_id change s = elim (find_peer s.peer_count s.peers norm_id) [
  | none ↦ s
  | some i ↦ put_peer s i (record (peer_at s i) { ghost_count = change (peer_at s i).ghost_count })
]

-- `snprintf(gm->id, 64, "ghost_%ld_%d", time(NULL), rand() % 10000)`
abbrev pub ghost_id : ℤ → ℕ → Bytes
ghost_id now rand =
    fit 64 (codes "ghost_" ++ (show_int now ++ (codes "_" ++ show_nat (rand % 10000))))

-- What is written to the slot `g`: its `from_id` is left as it was.
abbrev pub fresh_ghost : GhostMessage → Bytes → Bytes → ℤ → ℕ → GhostMessage
fresh_ghost g norm_id message now rand = record g {
  id = ghost_id now rand;
  to_id = norm_id;
  message = message;
  timestamp = now;
  delivered = false;
  delivered_at = pos 0;
  retry_count = pos 0;
}

-- `rand` is what `rand()` returned.
unfoldable pub state_add_ghost_message : Bytes → Bytes → ℤ → ℕ → Store → Code × Store
unfolding adjust_ghost_count
state_add_ghost_message to_id message now rand s =
    let norm_id = normalize_id to_id in
    if is_empty norm_id
    then (err, s)
    else if leb max_ghost_messages s.ghost_count
    then (err, s)
    else (
      ok,
      adjust_ghost_count norm_id (λ n. add_nat n 1)
          (record s {
            ghosts =
                set s.ghosts s.ghost_count
                  (fresh_ghost (get_or s.ghosts s.ghost_count zero_ghost) norm_id message now rand);
            ghost_count = s.ghost_count + 1;
          }),
    )

-- `is_same_id(g.to_id, norm_id) && !g.delivered`
abbrev pub is_due : Bytes → GhostMessage → Bool
is_due norm_id g = is_same_id g.to_id norm_id && not g.delivered

unfoldable pub collect_due : Bytes → ℕ → ℕ → List GhostMessage → List GhostMessage
collect_due norm_id zero room gs = []
collect_due norm_id (suc n) zero gs = []
collect_due norm_id (suc n) (suc room) [] = []
collect_due norm_id (suc n) (suc room) (g ∷ gs) = elim (is_due norm_id g) [
  | true ↦ g ∷ collect_due norm_id n room gs
  | false ↦ collect_due norm_id n (suc room) gs
]

unfoldable pub state_get_ghost_messages : Store → Bytes → ℕ → List GhostMessage
unfolding collect_due
state_get_ghost_messages s to_id max =
    let norm_id = normalize_id to_id in
    if is_empty norm_id then [] else collect_due norm_id s.ghost_count max s.ghosts

unfoldable pub count_due : Bytes → ℕ → List GhostMessage → ℕ
count_due norm_id zero gs = 0
count_due norm_id (suc n) [] = 0
count_due norm_id (suc n) (g ∷ gs) = (if is_due norm_id g then 1 else 0) + count_due norm_id n gs

unfoldable pub state_get_ghost_count : Store → Bytes → ℕ
unfolding count_due
state_get_ghost_count s to_id =
    let norm_id = normalize_id to_id in
    if is_empty norm_id then 0 else count_due norm_id s.ghost_count s.ghosts

unfoldable pub state_has_ghost_messages : Store → Bytes → Bool
state_has_ghost_messages s to_id = ltb 0 (state_get_ghost_count s to_id)

abbrev pub mark_delivered : ℤ → GhostMessage → GhostMessage
mark_delivered now g = record g { delivered = true; delivered_at = now }

abbrev pub delivery_event : Bytes → ℤ → GhostMessage → Event
delivery_event norm_id now g = record (event_create ghost_delivered norm_id now) {
  from_id = g.from_id;
  message = g.message;
}

-- The loop of `state_deliver_ghost_messages`: the slots, how many it delivered, and the queue. What
-- `event_queue_push` returns is not looked at.
unfoldable pub deliver_due :
    Bytes → ℤ → ℕ → List GhostMessage → EventQueue → List GhostMessage × ℕ × EventQueue
deliver_due norm_id now zero gs q = (gs, 0, q)
deliver_due norm_id now (suc n) [] q = ([], 0, q)
deliver_due norm_id now (suc n) (g ∷ gs) q = elim (is_due norm_id g) [
  | true ↦
      let (gs', delivered, q') =
        deliver_due norm_id now n gs (event_queue_push (delivery_event norm_id now g) q).1 in
      (mark_delivered now g ∷ gs', suc delivered, q')
  | false ↦ let (gs', delivered, q') = deliver_due norm_id now n gs q in (g ∷ gs', delivered, q')
]

unfoldable pub state_deliver_ghost_messages :
    Bytes → ℤ → Store → EventQueue → ℕ × Store × EventQueue
unfolding deliver_due adjust_ghost_count
state_deliver_ghost_messages to_id now s q =
    let norm_id = normalize_id to_id in
    if is_empty norm_id
    then (0, s, q)
    else let (gs, delivered, q') = deliver_due norm_id now s.ghost_count s.ghosts q in
      (
        delivered,
        adjust_ghost_count norm_id (λ n. at_least_zero (sub_nat n delivered))
            (record s { ghosts = gs }),
        q',
      )

-- A slot of the log holds 4096 bytes.
unfoldable pub state_add_message : Bytes → Bytes → Store → Code × Store
state_add_message from_id message s = if leb max_messages s.message_count then (err, s) else (
  ok,
  record s {
    messages = set s.messages s.message_count (fit 4096 (from_id ++ (codes "|" ++ message)));
    message_count = s.message_count + 1;
  },
)

-- `state_get_messages` and `state_clear_messages` are not written yet: they return 0.
unfoldable pub state_get_messages : Store → Bytes → ℕ → ℕ
state_get_messages s peer_id max = 0

unfoldable pub state_clear_messages : Store → Bytes → Code × Store
state_clear_messages s peer_id = (ok, s)
