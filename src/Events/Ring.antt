-- ===== src/Events/Ring.antt =====
-- The ring against the sequence of events that it holds, oldest first.
use orcashi.Prelude.{
  ℕ, zero, suc, ◌+◌, ◌-◌, ◌%◌, ◌≤◌, ◌<◌, ◌≡◌, ◌≢◌, refl, ap, ap₂, ◌∙◌, Option, none, some, List, [],
  ◌∷◌, ◌++◌, arith, length, get_or, set, length-set, get_or-set_self, get_or-set_ne, if◌then◌else◌,
  leb, length-replicate, Code, ok, err,
}
use orcashi.Events.Types.{Event, zero_event}
use orcashi.Events.Queue.{event_queue_size, EventQueue, empty_queue, event_queue_push, take_event}

-- All 1024 slots are there, the indices lie in range, and `tail` is where the events end.
pub record IsValid (q : EventQueue) : Type 0 where
  pub storage : length q.buf ≡ event_queue_size
  pub head_in : q.head < event_queue_size
  pub count_in : q.count ≤ event_queue_size
  pub tail_at : q.tail ≡ (q.head + q.count) % event_queue_size

-- The `n` entries from index `h` on, going round.
abbrev run_from : List Event → ℕ → ℕ → List Event
run_from buf h zero = []
run_from buf h (suc n) = get_or buf h zero_event ∷ run_from buf ((h + 1) % event_queue_size) n

abbrev pub pending : EventQueue → List Event
pending q = run_from q.buf q.head q.count

-- The queue that the ring stands for: a list that refuses an event at 1024.
unfoldable pub spec_push : Event → List Event → Code × List Event
spec_push e es = if leb event_queue_size (length es) then (err, es) else (ok, es ++ (e ∷ []))

unfoldable pub spec_take : List Event → Option Event × List Event
spec_take [] = (none, [])
spec_take (e ∷ es) = (some e, es)

length-run_from : (buf : List Event) (h n : ℕ) → length (run_from buf h n) ≡ n
length-run_from buf h zero = refl
length-run_from buf h (suc n) = ap suc (length-run_from buf ((h + 1) % event_queue_size) n)

pub length-pending : (q : EventQueue) → length (pending q) ≡ q.count
length-pending q = length-run_from q.buf q.head q.count

run_from_pos :
    (buf : List Event) (h n : ℕ)
    → n ≢ 0
    → run_from buf h n ≡ get_or buf h zero_event ∷ run_from buf ((h + 1) % event_queue_size) (n - 1)
run_from_pos buf h zero p = absurd (p refl)
run_from_pos buf h (suc n) p = ap (λ k. run_from buf h (suc k)) (omega arith)

-- Writing at the slot behind a run that leaves it free makes the run longer by the new entry.
run_from-set :
    (buf : List Event) (e : Event) (n h i : ℕ)
    → length buf ≡ event_queue_size
    → h < event_queue_size
    → n < event_queue_size
    → i ≡ (h + n) % event_queue_size
    → run_from (set buf i e) h (suc n) ≡ run_from buf h n ++ (e ∷ [])
run_from-set buf e zero h i size hh hn at =
    ap (λ x. x ∷ [])
      (ap (λ k. get_or (set buf k e) h zero_event) {x = i} {y = h} (omega arith)
        ∙ get_or-set_self buf h e zero_event (omega arith))
run_from-set buf e (suc n) h i size hh hn at =
    ap₂ ◌∷◌ (get_or-set_ne buf e zero_event (omega arith)) (
      run_from-set buf e n ((h + 1) % event_queue_size) i size (omega arith) (omega arith)
        (omega arith))

pub empty_queue-IsValid : IsValid empty_queue
empty_queue-IsValid = record {
  storage = length-replicate event_queue_size zero_event;
  head_in = omega arith;
  count_in = omega arith;
  tail_at = refl;
}

-- A push keeps the ring valid.
pub push-IsValid : {q : EventQueue} (e : Event) → IsValid q → IsValid (event_queue_push e q).1
unfolding event_queue_push
push-IsValid {q} e v = ground (arith, length-set q.buf q.tail e)

pub take-IsValid : {q : EventQueue} → IsValid q → IsValid (take_event q).1
unfolding take_event
take-IsValid v = ground arith

-- A push returns the code of `spec_push`, and leaves the ring holding its list.
pub push_refines :
    (e : Event) {q : EventQueue}
    → IsValid q
    → let (c, q') = event_queue_push e q in (c, pending q') ≡ spec_push e (pending q)
unfolding event_queue_push spec_push
push_refines e {q} v = ground (arith, length-pending q, run_from-set q.buf e q.count q.head q.tail)

-- `take_event` returns the oldest event and leaves the rest, in order.
pub take_refines :
    {q : EventQueue}
    → IsValid q
    → let (e, q') = take_event q in (e, pending q') ≡ spec_take (pending q)
unfolding take_event spec_take
take_refines {q} v = ground (arith, run_from_pos q.buf q.head q.count)
