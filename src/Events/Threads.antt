-- ===== src/Events/Threads.antt =====
-- The event loop among the other threads: what holds under every interleaving.
use orcashi.Prelude.{ℤ, Option, none, some, List, [], ◌∷◌}
use orcashi.Events.Types.{Event}
use orcashi.Events.Queue.{EventQueue, take_event}
use orcashi.Events.Ring
use orcashi.Events.Ring.{take-IsValid}
use orcashi.Events.World.{World, Call, call}
use orcashi.Events.Handlers.{Loop, Turn, other, own, next_event, go_on, event_loop_run}
use orcashi.Events.Keeps.{IsSound, call-IsSound, init_world, init_world-IsSound}

next_event-IsSound :
    (r : Option Event × EventQueue) {w : World}
    → IsSound w
    → Ring.IsValid r.1
    → IsSound (next_event r w).world
unfolding next_event
next_event-IsSound (none, q) h v = record { valid = h.valid; tracked = h.tracked; ring = v }
next_event-IsSound (some e, q) h v = record { valid = h.valid; tracked = h.tracked; ring = v }

go_on-IsSound :
    (now : ℤ) (todo : List Call) {w : World} → IsSound w → IsSound (go_on now todo w).world
unfolding go_on
go_on-IsSound now [] {w} h = next_event-IsSound (take_event w.queue) h (take-IsValid h.ring)
go_on-IsSound now (c ∷ cs) h = call-IsSound now c h

event_loop_run-IsSound :
    (ts : List (ℤ × Turn)) (l : Loop) → IsSound l.world → IsSound (event_loop_run ts l).world
unfolding event_loop_run
event_loop_run-IsSound [] l h = h
event_loop_run-IsSound ((now, other c) ∷ ts) l h =
    event_loop_run-IsSound ts (record l { world = call now c l.world }) (call-IsSound now c h)
event_loop_run-IsSound ((now, own) ∷ ts) l h =
    event_loop_run-IsSound ts (go_on now l.todo l.world) (go_on-IsSound now l.todo h)

-- The event loop as it starts where there is no state file.
abbrev pub first_loop : Loop
first_loop = record { todo = []; world = init_world }

-- From the start without a state file, under every interleaving of the event loop with calls of other threads: the store
-- stays valid, no peer's counter passes the number of messages that wait for it, and the event queue
-- stays a valid ring.
pub event_loop-IsSound : (ts : List (ℤ × Turn)) → IsSound (event_loop_run ts first_loop).world
event_loop-IsSound ts = event_loop_run-IsSound ts first_loop init_world-IsSound
