-- ===== src/Events/Pop.antt =====
-- `event_queue_pop` over any way in which its waits may end.
use orcashi.Prelude.{
  ◌≡◌, ◌≢◌, refl, ◌∙◌, ◌⊎◌, inl, inr, Bool, true, false, ◌&&◌, Option, none, some, List, [], ◌∷◌,
  arith, length, Bool-cases, ◌==◌,
}
use orcashi.Events.Types.{Event}
use orcashi.Events.Queue.{EventQueue, take_event, event_queue_pop, Wake, timed_out, woken}
use orcashi.Events.Ring.{IsValid, pending, length-pending}

-- Other threads leave the ring valid.
abbrev pub AllValid : List Wake → Type 0
AllValid [] = Unit {0}
AllValid (timed_out q ∷ ws) = IsValid q × AllValid ws
AllValid (woken q running ∷ ws) = IsValid q × AllValid ws

-- The queue as it was when the waiting ended: at the start, at one of the wake-ups, or, in a call
-- with a timeout, when that had passed, of which the second Boolean tells.
pub data IsLast : Bool → EventQueue → List Wake → Bool → EventQueue → Type 0 where
  now : {timed : Bool} {q : EventQueue} {ws : List Wake} → IsLast timed q ws false q
  late : {q p : EventQueue} {ws : List Wake} → IsLast true q (timed_out p ∷ ws) true p
  skip :
      {q p r : EventQueue} {ws : List Wake} {out : Bool}
      → IsLast false p ws out r
      → IsLast false q (timed_out p ∷ ws) out r
  wake :
      {timed : Bool} {q r p : EventQueue} {ws : List Wake} {running out : Bool}
      → IsLast timed p ws out r
      → IsLast timed q (woken p running ∷ ws) out r

-- What a call that has returned did with the queue `p` that it found in the end: it took the oldest
-- event and left the rest, or found none and left the queue alone. Where the timeout had passed, it
-- took nothing, whether the queue was empty or not.
abbrev pub Popped : Bool → EventQueue → Option Event × EventQueue → Type 0
Popped true p r = r ≡ (none, p)
Popped false p (some e, q) = (pending p ≡ e ∷ pending q) × IsValid q
Popped false p (none, q) = (pending p ≡ []) × (q ≡ p)

nil_of_length : (es : List Event) → length es ≡ 0 → es ≡ []
nil_of_length [] h = refl
nil_of_length (e ∷ es) h = absurd (omega arith)

-- It waits only while the queue is empty and the loop runs.
pop_ready :
    (timed : Bool) (ws : List Wake) (q : EventQueue) (running : Bool)
    → ((q.count == 0) && running) ≡ false
    → event_queue_pop timed ws q running ≡ some (take_event q)
unfolding event_queue_pop
pop_ready timed [] q running e = rw e
pop_ready timed (timed_out p ∷ ws) q running e = rw e
pop_ready timed (woken p r ∷ ws) q running e = rw e

count_pos : (q : EventQueue) → pending q ≢ [] → (q.count == 0) ≡ false
count_pos q h = elim (Bool-cases (q.count == 0)) [
  | inr e ↦ e
  | inl e ↦ absurd (h (nil_of_length (pending q) (length-pending q ∙ ground arith)))
]

ready_if :
    (q : EventQueue) (running : Bool)
    → ((pending q ≢ []) ⊎ (running ≡ false))
    → ((q.count == 0) && running) ≡ false
ready_if q running (inl h) = rw (count_pos q h)
ready_if q running (inr h) = rw h (ground arith)

-- Where there is an event, or the loop has been stopped, the call does not wait: it returns.
pop_returns :
    (timed : Bool) (ws : List Wake) (q : EventQueue) (running : Bool)
    → ((pending q ≢ []) ⊎ (running ≡ false))
    → (r : Option Event × EventQueue) × (event_queue_pop timed ws q running ≡ some r)
pop_returns timed ws q running h =
    (take_event q, pop_ready timed ws q running (ready_if q running h))
