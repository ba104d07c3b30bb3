-- ===== src/Tests/Delivery.antt =====
-- Sending and delivering at a store with one waiting message.
use orcashi.Prelude.{
  ℤ, pos, ◌≤◌, ◌≡◌, refl, ◌++◌, map, replicate, List, [], ◌∷◌, arith, if◌then◌else◌,
}
use orcashi.CString.Text.{codes, str_eq}
use orcashi.State.Types.{Store, max_ghost_messages}
use orcashi.State.Ids.{normalize_id, strip, is_same_id}
use orcashi.State.Ghosts.{
  state_deliver_ghost_messages, state_get_ghost_count, state_get_ghost_messages, delivery_event,
  count_due, state_add_ghost_message, adjust_ghost_count,
}
use orcashi.State.Counts.{deliver-counts, deliver-events}
use orcashi.State.Peers.{state_add_peer, state_get_peer, find_peer}
use orcashi.Events.Types.{zero_event}
use orcashi.Events.Queue.{EventQueue, empty_queue, event_queue_size}
use orcashi.Events.Ring.{pending, empty_queue-IsValid}
use orcashi.Events.World.{Call, call, add_peer, add_ghost_message}
use orcashi.Events.Keeps.{run_calls, run_calls-init, init_world}

abbrev sent : List (ℤ × Call)
sent =
    (pos 100, add_peer (codes "7")) ∷ (pos 101, add_ghost_message (codes "7") (codes "hi") 12) ∷ []

abbrev waiting : Store
waiting = (run_calls sent init_world).store

-- A queue whose 1024 slots are all in use.
abbrev full_queue : EventQueue
full_queue = record {
  buf = replicate event_queue_size zero_event;
  head = 0;
  tail = 0;
  count = event_queue_size;
}

deliver-counts_example :
    let (n, s', q') = state_deliver_ghost_messages (codes "<7>") (pos 102) waiting empty_queue in
    (n ≡ state_get_ghost_count waiting (codes "<7>"))
    × (state_get_ghost_count s' (codes "7") ≡ (
        if is_same_id (codes "<7>") (codes "7")
        then 0
        else state_get_ghost_count waiting (codes "7")))
deliver-counts_example = deliver-counts (codes "<7>") (codes "7") (pos 102) waiting empty_queue

one_waits : state_get_ghost_count waiting (codes "7") ≡ 1
unfolding state_get_ghost_count run_calls call state_add_peer state_get_peer find_peer normalize_id
    strip is_same_id str_eq state_add_ghost_message adjust_ghost_count count_due
one_waits = refl

deliver-events_example :
    pending (state_deliver_ghost_messages (codes "7") (pos 102) waiting empty_queue).2
    ≡ pending empty_queue
      ++ map
          (delivery_event (normalize_id (codes "7")) (pos 102))
          (state_get_ghost_messages waiting (codes "7") max_ghost_messages)
deliver-events_example =
    deliver-events (codes "7") (pos 102) waiting empty_queue empty_queue-IsValid
      (run_calls-init sent).valid.ghosts_in (omega (arith, one_waits))

no_room : event_queue_size ≤ full_queue.count
no_room = omega arith
