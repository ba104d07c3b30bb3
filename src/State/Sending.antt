-- ===== src/State/Sending.antt =====
-- `state_add_ghost_message` and `state_deliver_ghost_messages` on whole stores: what they do to the
-- number of messages that wait, to the invariant and to the counters.
use orcashi.Prelude.{
  ℕ, zero, suc, ◌+◌, ◌≤◌, ◌<◌, ◌≡◌, refl, sym, ap, subst, ◌∙◌, ◌⊎◌, ℤ, add_nat, sub_nat,
  at_least_zero, true, false, List, [], ◌∷◌, arith, length, Code, ok, err, Bool-cases, inl, inr,
  if◌then◌else◌, leb, set, get_or, length-set,
}
use orcashi.CString.Text.{Bytes, is_empty}
use orcashi.Events.Queue.{EventQueue}
use orcashi.State.Types.{GhostMessage, zero_ghost, Store, max_ghost_messages}
use orcashi.State.Ids.{normalize_id, is_same_id, is_same_id_iff, is_same_id_refl}
use orcashi.State.Ghosts.{
  is_due, count_due, deliver_due, fresh_ghost, adjust_ghost_count, state_deliver_ghost_messages,
  state_get_ghost_count, state_add_ghost_message,
}
use orcashi.State.Valid.{IsValid, with_peer-IsValid}
use orcashi.State.Delivery.{length-deliver, delivered-count}
use orcashi.State.Counts.{
  same_normal, deliver_empty, deliver_some, count-slots, count_some, adjust-ghosts,
}
use orcashi.State.Tracked.{IsTracked, Tracks-add_one, Tracks-delivered, count_of_slots}
use orcashi.State.Waiting.{
  adjust-with_peer, recount, with_ghosts, with_ghosts-IsValid, recounted-IsTracked,
}

-- The slots after a message is written behind those in use.
abbrev appended : Bytes → Bytes → ℤ → ℕ → Store → List GhostMessage
appended to_id message now rand s =
    set s.ghosts s.ghost_count
      (fresh_ghost (get_or s.ghosts s.ghost_count zero_ghost) (normalize_id to_id) message now rand)

abbrev sent : Bytes → Bytes → ℤ → ℕ → Store → Store
sent to_id message now rand s =
    adjust_ghost_count (normalize_id to_id) (λ n. add_nat n 1)
      (with_ghosts (appended to_id message now rand s) (s.ghost_count + 1) s)

add_ghost_cases :
    (to_id message : Bytes) (now : ℤ) (rand : ℕ) (s : Store)
    → (((is_empty (normalize_id to_id) ≡ true) ⊎ (max_ghost_messages ≤ s.ghost_count))
        × (state_add_ghost_message to_id message now rand s ≡ (err, s)))
      ⊎ ((is_empty (normalize_id to_id) ≡ false)
          × (s.ghost_count < max_ghost_messages)
          × (state_add_ghost_message to_id message now rand s
              ≡ (ok, sent to_id message now rand s)))
unfolding state_add_ghost_message
add_ghost_cases to_id message now rand s = elim (Bool-cases (is_empty (normalize_id to_id))) [
  | inl e ↦ inl (inl e, rw (e, state_add_ghost_message) refl)
  | inr e ↦ elim (Bool-cases (leb max_ghost_messages s.ghost_count)) [
    | inl full ↦ inl (inr (ground arith), rw (e, full, state_add_ghost_message) refl)
    | inr room ↦ inr (e, ground arith, rw (e, room, state_add_ghost_message) refl)
  ]
]

-- One more slot in use.
count_due-set :
    (id : Bytes) (n : ℕ) (gs : List GhostMessage) (g : GhostMessage)
    → n < length gs
    → count_due id (suc n) (set gs n g) ≡ count_due id n gs + (if is_due id g then 1 else 0)
unfolding count_due
count_due-set id n [] g h = absurd (omega arith)
count_due-set id zero (x ∷ gs) g h = ground arith
count_due-set id (suc n) (x ∷ gs) g h = omega (arith, count_due-set id n gs g (omega arith))

count-with_ghosts :
    (s : Store) (gs : List GhostMessage) (n : ℕ) (id : Bytes)
    → is_empty (normalize_id id) ≡ false
    → state_get_ghost_count (with_ghosts gs n s) id ≡ count_due (normalize_id id) n gs
count-with_ghosts s gs n id e = count_some (with_ghosts gs n s) id e

count_none :
    (s : Store) (id : Bytes) → is_empty (normalize_id id) ≡ true → state_get_ghost_count s id ≡ 0
unfolding state_get_ghost_count
count_none s id e = rw e

empty_differs :
    (a b : Bytes)
    → is_empty (normalize_id a) ≡ false
    → is_empty (normalize_id b) ≡ true
    → is_same_id a b ≡ false
empty_differs a b p q = ground (arith, (is_same_id_iff a b).0, ap is_empty)

-- What the slots of a store hold for an id after a message is appended.
count-appended :
    (to_id message other : Bytes) (now : ℤ) (rand : ℕ) {s : Store}
    → is_empty (normalize_id to_id) ≡ false
    → IsValid s
    → s.ghost_count < max_ghost_messages
    → state_get_ghost_count
        (with_ghosts (appended to_id message now rand s) (s.ghost_count + 1) s)
        other
      ≡ state_get_ghost_count s other + (if is_same_id to_id other then 1 else 0)
count-appended to_id message other now rand {s} e v room =
    elim (Bool-cases (is_empty (normalize_id other))) [
      | inl none_there ↦
          count_none (with_ghosts (appended to_id message now rand s) (s.ghost_count + 1) s) other
            none_there
          ∙ ground (arith, count_none s other none_there, empty_differs to_id other e none_there)
      | inr f ↦
          count-with_ghosts s (appended to_id message now rand s) (s.ghost_count + 1) other f
          ∙ ap (λ n. count_due (normalize_id other) n (appended to_id message now rand s))
              {x = s.ghost_count + 1} {y = suc s.ghost_count} (omega arith)
          ∙ count_due-set (normalize_id other) s.ghost_count s.ghosts
              (fresh_ghost (get_or s.ghosts s.ghost_count zero_ghost) (normalize_id to_id) message
                now rand)
              (omega (arith, v.ghost_slots))
          ∙ ground (arith, count_some s other f, same_normal to_id other)
    ]

count-sent :
    (to_id message other : Bytes) (now : ℤ) (rand : ℕ) {s : Store}
    → is_empty (normalize_id to_id) ≡ false
    → IsValid s
    → s.ghost_count < max_ghost_messages
    → state_get_ghost_count (sent to_id message now rand s) other
      ≡ state_get_ghost_count s other + (if is_same_id to_id other then 1 else 0)
count-sent to_id message other now rand {s} e v room =
    let mid : Store = with_ghosts (appended to_id message now rand s) (s.ghost_count + 1) s in
    let kept = adjust-ghosts (normalize_id to_id) (λ n. add_nat n 1) mid in
    count_of_slots mid (sent to_id message now rand s) other kept.0 kept.1
    ∙ count-appended to_id message other now rand e v room

-- What sending comes to, for the messages that wait for `other`.
abbrev pub Sends : Bytes → Bytes → Store → Code × Store → Type 0
Sends to_id other s (code, s') =
    ((code ≡ err)
      × (s' ≡ s)
      × ((is_empty (normalize_id to_id) ≡ true) ⊎ (s.ghost_count ≡ max_ghost_messages)))
    ⊎ ((code ≡ ok)
        × (state_get_ghost_count s' other
            ≡ state_get_ghost_count s other + (if is_same_id to_id other then 1 else 0)))

-- On a valid store `state_add_ghost_message` fails, changing nothing, on an id that is empty without
-- its brackets and when all 1024 slots are used; else one more message waits for that id, under any
-- spelling, and as many as before for every other.
pub add_ghost_message-Sends :
    (to_id message other : Bytes) (now : ℤ) (rand : ℕ) {s : Store}
    → IsValid s
    → Sends to_id other s (state_add_ghost_message to_id message now rand s)
add_ghost_message-Sends to_id message other now rand {s} v =
    elim (add_ghost_cases to_id message now rand s) [
      | inl (inl e, step) ↦ rw step (inl (refl, refl, inl e))
      | inl (inr full, step) ↦ rw step (inl (refl, refl, inr (omega (arith, v.ghosts_in))))
      | inr (e, room, step) ↦ rw step (inr (refl, count-sent to_id message other now rand e v room))
    ]

adjust-IsValid :
    {s : Store} (id : Bytes) (change : ℤ → ℤ)
    → is_empty (normalize_id id) ≡ false
    → IsValid s
    → IsValid (adjust_ghost_count (normalize_id id) change s)
adjust-IsValid {s} id change e v =
    subst IsValid (sym (adjust-with_peer id change s e))
      (with_peer-IsValid (normalize_id id) (recount change) (λ p. refl) v)

mid-IsValid :
    (to_id message : Bytes) (now : ℤ) (rand : ℕ) {s : Store}
    → IsValid s
    → s.ghost_count < max_ghost_messages
    → IsValid (with_ghosts (appended to_id message now rand s) (s.ghost_count + 1) s)
mid-IsValid to_id message now rand {s} v room =
    with_ghosts-IsValid _ (s.ghost_count + 1) v
      (length-set s.ghosts s.ghost_count _ ∙ v.ghost_slots) (omega arith)

pub add_ghost_message-IsValid :
    (to_id message : Bytes) (now : ℤ) (rand : ℕ) {s : Store}
    → IsValid s
    → IsValid (state_add_ghost_message to_id message now rand s).1
add_ghost_message-IsValid to_id message now rand {s} v =
    elim (add_ghost_cases to_id message now rand s) [
      | inl (why, step) ↦ rw step v
      | inr (e, room, step) ↦
          rw step
            (adjust-IsValid to_id (λ n. add_nat n 1) e (mid-IsValid to_id message now rand v room))
    ]

pub add_ghost_message-IsTracked :
    (to_id message : Bytes) (now : ℤ) (rand : ℕ) {s : Store}
    → IsValid s
    → IsTracked s
    → IsTracked (state_add_ghost_message to_id message now rand s).1
add_ghost_message-IsTracked to_id message now rand {s} v t =
    elim (add_ghost_cases to_id message now rand s) [
      | inl (why, step) ↦ rw step t
      | inr (e, room, step) ↦
          let count = λ (other : Bytes). count-appended to_id message other now rand e v room in
          rw step (
            recounted-IsTracked s to_id (λ n. add_nat n 1) _ (s.ghost_count + 1) e
              (mid-IsValid to_id message now rand v room) t
              (λ k h. rw (count to_id, is_same_id_refl to_id) (Tracks-add_one k _ h))
              (λ other differ. rw (count other, differ) (omega arith)))
    ]

pub delivered_mid-IsValid :
    (to_id : Bytes) (now : ℤ) {s : Store} (q : EventQueue)
    → IsValid s
    → IsValid (
        with_ghosts
          (deliver_due (normalize_id to_id) now s.ghost_count s.ghosts q).0
          s.ghost_count
          s)
delivered_mid-IsValid to_id now {s} q v =
    with_ghosts-IsValid _ s.ghost_count v
      (length-deliver (normalize_id to_id) now s.ghost_count s.ghosts q ∙ v.ghost_slots) v.ghosts_in

pub deliver-IsValid :
    (to_id : Bytes) (now : ℤ) {s : Store} (q : EventQueue)
    → IsValid s
    → IsValid (state_deliver_ghost_messages to_id now s q).1
deliver-IsValid to_id now {s} q v = elim (Bool-cases (is_empty (normalize_id to_id))) [
  | inl e ↦ rw (deliver_empty to_id now s q e) v
  | inr e ↦
      rw (deliver_some to_id now s q e)
        (adjust-IsValid to_id _ e (delivered_mid-IsValid to_id now q v))
]

pub deliver-IsTracked :
    (to_id : Bytes) (now : ℤ) {s : Store} (q : EventQueue)
    → IsValid s
    → IsTracked s
    → IsTracked (state_deliver_ghost_messages to_id now s q).1
deliver-IsTracked to_id now {s} q v t = elim (Bool-cases (is_empty (normalize_id to_id))) [
  | inl e ↦ rw (deliver_empty to_id now s q e) t
  | inr e ↦
      let count = λ (other : Bytes). count-slots to_id other now s q in
      let n = (deliver_due (normalize_id to_id) now s.ghost_count s.ghosts q).1 in
      let all : n ≡ state_get_ghost_count s to_id =
        delivered-count (normalize_id to_id) now s.ghost_count s.ghosts q
        ∙ sym (count_some s to_id e) in
      rw (deliver_some to_id now s q e) (
        recounted-IsTracked s to_id (λ k. at_least_zero (sub_nat k n)) _ s.ghost_count e
          (delivered_mid-IsValid to_id now q v) t
          (λ k h. rw (count to_id, is_same_id_refl to_id) (Tracks-delivered k n (rw all h)))
          (λ other differ. rw (count other, differ) (omega arith)))
]
