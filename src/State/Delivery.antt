-- ===== src/State/Delivery.antt =====
-- Ghost messages: what is waiting for a peer, and what delivering does to it and to the event queue.
use orcashi.Prelude.{
  ℕ, zero, suc, ◌+◌, ◌≤◌, ◌<◌, ◌≡◌, refl, sym, ℤ, true, List, [], ◌∷◌, ◌++◌, map, append-nil,
  append_assoc, arith, length, length-append, Bool-cases, inl, inr, if◌then◌else◌,
}
use orcashi.CString.Text.{Bytes}
use orcashi.Events.Types.{Event}
use orcashi.Events.Queue.{EventQueue, event_queue_push, event_queue_size}
use orcashi.Events.Ring
use orcashi.Events.Ring.{pending, push_refines, push-IsValid, spec_push, length-pending}
use orcashi.State.Types.{GhostMessage}
use orcashi.State.Ids.{is_same_id, is_same_id_congr, is_same_id_sym}
use orcashi.State.Ghosts.{is_due, count_due, collect_due, deliver_due, delivery_event}

-- Two spellings of an id have the same messages waiting.
pub count_due_congr :
    (a b : Bytes) (n : ℕ) (gs : List GhostMessage)
    → is_same_id a b ≡ true
    → count_due a n gs ≡ count_due b n gs
unfolding count_due
count_due_congr a b zero gs h = refl
count_due_congr a b (suc n) [] h = refl
count_due_congr a b (suc n) (g ∷ gs) h = ground (
  arith,
  count_due_congr a b n gs h,
  is_same_id_congr a b g.to_id h,
  is_same_id_sym a g.to_id,
  is_same_id_sym b g.to_id,
)

-- The loop delivers as many messages as were waiting.
pub delivered-count :
    (id : Bytes) (now : ℤ) (n : ℕ) (gs : List GhostMessage) (q : EventQueue)
    → (deliver_due id now n gs q).1 ≡ count_due id n gs
unfolding deliver_due count_due
delivered-count id now zero gs q = refl
delivered-count id now (suc n) [] q = refl
delivered-count id now (suc n) (g ∷ gs) q = ground (
  arith,
  delivered-count id now n gs q,
  delivered-count id now n gs (event_queue_push (delivery_event id now g) q).1,
)

-- Nothing is left for the peer, and nothing is taken from another.
pub count_due-deliver :
    (id other : Bytes) (now : ℤ) (n : ℕ) (gs : List GhostMessage) (q : EventQueue)
    → count_due other n (deliver_due id now n gs q).0
      ≡ (if is_same_id id other then 0 else count_due other n gs)
unfolding deliver_due count_due
count_due-deliver id other now zero gs q = ground arith
count_due-deliver id other now (suc n) [] q = ground arith
count_due-deliver id other now (suc n) (g ∷ gs) q = ground (
  arith,
  count_due-deliver id other now n gs q,
  count_due-deliver id other now n gs (event_queue_push (delivery_event id now g) q).1,
  is_same_id_congr g.to_id id other,
  is_same_id_congr id other g.to_id,
  is_same_id_sym id g.to_id,
  is_same_id_sym other g.to_id,
)

pub length-deliver :
    (id : Bytes) (now : ℤ) (n : ℕ) (gs : List GhostMessage) (q : EventQueue)
    → length (deliver_due id now n gs q).0 ≡ length gs
unfolding deliver_due
length-deliver id now zero gs q = refl
length-deliver id now (suc n) [] q = refl
length-deliver id now (suc n) (g ∷ gs) q = ground (
  arith,
  length-deliver id now n gs q,
  length-deliver id now n gs (event_queue_push (delivery_event id now g) q).1,
)

-- Where the queue has room for an event, the event goes to its end.
push_pending :
    (e : Event) {q : EventQueue}
    → Ring.IsValid q
    → length (pending q) < event_queue_size
    → pending (event_queue_push e q).1 ≡ pending q ++ (e ∷ [])
unfolding spec_push
push_pending e {q} v room = ground (arith, push_refines e v)

-- With room for them all, the events of the messages go to the queue in order.
pub pending-deliver :
    (id : Bytes) (now : ℤ) (n room : ℕ) (gs : List GhostMessage) (q : EventQueue)
    → Ring.IsValid q
    → n ≤ room
    → length (pending q) + count_due id n gs ≤ event_queue_size
    → pending (deliver_due id now n gs q).2
      ≡ pending q ++ map (delivery_event id now) (collect_due id n room gs)
unfolding deliver_due count_due collect_due
pending-deliver id now zero room gs q v le h = sym (append-nil (pending q))
pending-deliver id now (suc n) zero gs q v le h = absurd (omega arith)
pending-deliver id now (suc n) (suc room) [] q v le h = sym (append-nil (pending q))
pending-deliver id now (suc n) (suc room) (g ∷ gs) q v le h = elim (Bool-cases (is_due id g)) [
  | inr miss ↦
      ground (arith, miss, pending-deliver id now n (suc room) gs q v (omega arith) (ground arith))
  | inl hit ↦
      let e = delivery_event id now g in
      let fits : length (pending q) + 1 + count_due id n gs ≤ event_queue_size = ground arith in
      let pushed = push_pending e v (omega arith) in
      let later : length (pending (event_queue_push e q).1) + count_due id n gs ≤ event_queue_size =
        rw (pushed, length-append (pending q) (e ∷ [])) fits in
      ground (
        arith,
        hit,
        pending-deliver id now n room gs (event_queue_push e q).1 (push-IsValid e v) (omega arith)
            later,
        pushed,
        append_assoc (pending q) (e ∷ []) (map (delivery_event id now) (collect_due id n room gs)),
      )
]

-- With a full queue the loop still marks every message, and the queue stays as it is.
pub dropped-deliver :
    (id : Bytes) (now : ℤ) (n : ℕ) (gs : List GhostMessage) (q : EventQueue)
    → event_queue_size ≤ q.count
    → (deliver_due id now n gs q).2 ≡ q
unfolding deliver_due event_queue_push
dropped-deliver id now zero gs q h = refl
dropped-deliver id now (suc n) [] q h = refl
dropped-deliver id now (suc n) (g ∷ gs) q h = ground (arith, dropped-deliver id now n gs q h)
