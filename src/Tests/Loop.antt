-- ===== src/Tests/Loop.antt =====
-- The event queue's and the event loop's theorems on short queues and histories.
use orcashi.Prelude.{
  ℤ, pos, ◌≡◌, ◌≢◌, refl, ◌∷◌, [], List, none, some, arith, true, if◌then◌else◌, ◌>>=◌,
}
use orcashi.CString.Text.{codes}
use orcashi.Events.Types.{Event, zero_event, peer_online, add_request}
use orcashi.Events.Queue.{
  EventQueue, timed_out, empty_queue, event_queue_push, take_event, event_queue_pop,
}
use orcashi.Events.Ring.{
  IsValid, pending, spec_push, spec_take, push_refines, take_refines, push-IsValid,
  empty_queue-IsValid,
}
use orcashi.Events.World.{World, add_peer, push_event}
use orcashi.Events.Keeps.{IsSound, run_calls, run_calls-init, init_world}
use orcashi.Events.Handlers.{Turn, event_loop_run, event_process}
use orcashi.Events.Threads.{first_loop, event_loop-IsSound}
use orcashi.Events.Outcome.{subject, outcome, event_process-outcome}
use orcashi.State.Peers.{state_get_peer, find_peer}
use orcashi.State.Ids.{is_same_id, normalize_id, strip}
use orcashi.State.View.{view}

abbrev greeting : Event
greeting = record zero_event { kind = peer_online; peer_id = codes "7"; from_id = codes "7" }

abbrev request : Event
request = record zero_event { kind = add_request; peer_id = codes "7"; from_id = codes "7" }

abbrev one_event : EventQueue
one_event = (event_queue_push greeting empty_queue).1

one_event-IsValid : IsValid one_event
one_event-IsValid = push-IsValid greeting empty_queue-IsValid

push_refines_example :
    let (c, q') = event_queue_push request one_event in
    (c, pending q') ≡ spec_push request (pending one_event)
push_refines_example = push_refines request one_event-IsValid

take_refines_example :
    let (e, q') = take_event one_event in (e, pending q') ≡ spec_take (pending one_event)
take_refines_example = take_refines one_event-IsValid

-- The timeout passes while another thread puts an event into the queue.
passed : event_queue_pop true (timed_out one_event ∷ []) empty_queue true ≡ some (none, one_event)
unfolding event_queue_pop event_queue_push
passed = refl

not_empty : pending one_event ≢ []
unfolding event_queue_push
not_empty h = ground arith

abbrev turns : List (ℤ × Turn)
turns =
    (pos 100, Turn.other (add_peer (codes "7")))
    ∷ (pos 101, Turn.other (push_event greeting))
    ∷ (pos 102, Turn.own)
    ∷ (pos 103, Turn.own)
    ∷ []

event_loop-IsSound_example : IsSound (event_loop_run turns first_loop).world
event_loop-IsSound_example = event_loop-IsSound turns

abbrev met : World
met = run_calls ((pos 100, add_peer (codes "7")) ∷ []) init_world

met-IsSound : IsSound met
met-IsSound = run_calls-init ((pos 100, add_peer (codes "7")) ∷ [])

event_process-outcome_example :
    view (event_process (pos 102) greeting met).1.store (codes "<7>") ≡ (
      if is_same_id (subject peer_online greeting) (codes "<7>")
      then (view met.store (subject peer_online greeting)
          >>= outcome peer_online greeting (pos 102))
      else view met.store (codes "<7>"))
event_process-outcome_example = event_process-outcome (pos 102) greeting (codes "<7>") met-IsSound

unknown : view init_world.store (codes "7") ≡ none
unfolding state_get_peer find_peer normalize_id strip
unknown = refl
