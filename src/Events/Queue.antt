-- ===== src/Events/Queue.antt =====
-- The event queue of event_loop.c: a ring of 1024 entries under one mutex. Each function is one
-- critical section, so it is one step on the state; `event_queue_pop` gives the mutex up while it
-- waits, and what it finds on waking is an argument of the model.
use orcashi.Prelude.{
  ℕ, ◌+◌, ◌-◌, ◌%◌, Bool, ◌&&◌, Option, none, some, List, [], ◌∷◌, ltb, leb, ◌==◌, if◌then◌else◌,
  get_or, set, replicate, Code, ok, err,
}
use orcashi.Events.Types.{Event, zero_event}

abbrev pub event_queue_size : ℕ
event_queue_size = 1024

-- `g_event_queue` with `g_queue_head`, `g_queue_tail` and `g_queue_count`.
pub record EventQueue : Type 0 where
  pub buf : List Event
  pub head : ℕ
  pub tail : ℕ
  pub count : ℕ

-- The state that the program starts with: C zeroes its static data.
abbrev pub empty_queue : EventQueue
empty_queue = record { buf = replicate event_queue_size zero_event; head = 0; tail = 0; count = 0 }

unfoldable pub event_queue_push : Event → EventQueue → Code × EventQueue
event_queue_push event q = if leb event_queue_size q.count then (err, q) else (
  ok,
  record q {
    buf = set q.buf q.tail event;
    tail = (q.tail + 1) % event_queue_size;
    count = q.count + 1;
  },
)

-- `event_queue_pop` behind its wait.
unfoldable pub take_event : EventQueue → Option Event × EventQueue
take_event q = if q.count == 0 then (none, q) else (
  some (get_or q.buf q.head zero_event),
  record q { head = (q.head + 1) % event_queue_size; count = q.count - 1 },
)

-- How one wait on the condition variable ends: by `ETIMEDOUT`, with the queue as the other threads
-- have left it by then, or by a wake-up, with the queue and `g_running` as they have left them.
pub data Wake : Type 0 where
  timed_out : EventQueue → Wake
  woken : EventQueue → Bool → Wake

-- `event_queue_pop` over the ends of its waits, in order. The outer `none` says that it still
-- waits; the inner option is the event, `none` for the return value -1. Without a timeout
-- `pthread_cond_wait` does not end by `ETIMEDOUT`: such an entry is a wake-up while the loop still
-- runs.
unfoldable pub event_queue_pop :
    Bool → List Wake → EventQueue → Bool → Option (Option Event × EventQueue)
unfolding take_event
event_queue_pop timed [] q running = if q.count == 0 && running then none else some (take_event q)
event_queue_pop timed (timed_out q' ∷ wakes) q running =
    let again = event_queue_pop timed wakes q' running in
    if q.count == 0 && running
    then (if timed then some (none, q') else again)
    else some (take_event q)
event_queue_pop timed (woken q' running' ∷ wakes) q running =
    let again = event_queue_pop timed wakes q' running' in
    if q.count == 0 && running then again else some (take_event q)

unfoldable pub event_queue_has_events : EventQueue → Bool
event_queue_has_events q = ltb 0 q.count

unfoldable pub event_queue_size_now : EventQueue → ℕ
event_queue_size_now q = q.count
