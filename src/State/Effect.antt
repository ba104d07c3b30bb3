-- ===== src/State/Effect.antt =====
-- Changes of one peer, as the table of peers shows them; and delivering as such a change.
use mathlib.Core.Option
use orcashi.Prelude.{
  ℕ, ◌≡◌, refl, sym, ap, subst, ◌∙◌, ℤ, pos, negsuc, at_least_zero, sub_nat, true, Option, none,
  some, arith, if◌then◌else◌, Code, Bool-cases, inl, inr,
}
use orcashi.CString.Text.{Bytes, is_empty}
use orcashi.Events.Queue.{EventQueue}
use orcashi.State.Types.{Peer, Store}
use orcashi.State.Ids.{is_same_id, is_same_id_refl, normalize_id}
use orcashi.State.Peers.{state_get_peer}
use orcashi.State.Fields.{with_peer}
use orcashi.State.Ghosts.{deliver_due, state_deliver_ghost_messages, state_get_ghost_count}
use orcashi.State.Valid.{IsValid}
use orcashi.State.View.{view, Rewrites, with_peer-Rewrites}
use orcashi.State.Change.{Removes}
use orcashi.State.Counts.{deliver_empty, deliver_some, count_some}
use orcashi.State.Delivery.{delivered-count}
use orcashi.State.Tracked.{Tracks, TracksAt, IsTracked}
use orcashi.State.Waiting.{view_same, recount, with_ghosts, adjust-with_peer, is_same_normal}
use orcashi.State.Sending.{delivered_mid-IsValid}

-- From `s` to `s'` the peer `id` changes by `f`, where `none` is no peer, as seen from `other`.
abbrev pub ChangesAt : Bytes → (Option Peer → Option Peer) → Store → Store → Bytes → Type 0
ChangesAt id f s s' other =
    view s' other ≡ (if is_same_id id other then f (view s id) else view s other)

pub ChangesAt-Rewrites :
    (id : Bytes) (write : Peer → Peer) (s : Store) (other : Bytes) (r : Code × Store)
    → view s other ≡ (if is_same_id id other then view s id else view s other)
    → Rewrites id write other s r
    → ChangesAt id (Option.map write) s r.1 other
ChangesAt-Rewrites id write s other r self (inl (e, absent, same)) =
    ap (λ s'. view s' other) same ∙ self ∙ rw absent
ChangesAt-Rewrites id write s other r self (inr (p, known, e, now)) = now ∙ rw known

pub view_self :
    (s : Store) (id other : Bytes)
    → view s other ≡ (if is_same_id id other then view s id else view s other)
view_self s id other = elim (Bool-cases (is_same_id id other)) [
  | inl same ↦ rw same (sym (view_same s id other same))
  | inr differ ↦ rw differ
]

pub ChangesAt-Removes :
    (id : Bytes) (s : Store) (other : Bytes) (r : Code × Store)
    → Removes id other s r
    → ChangesAt id (λ p. none) s r.1 other
ChangesAt-Removes id s other r (inl (e, absent, same)) =
    ap (λ s'. view s' other) same ∙ view_self s id other ∙ rw absent
ChangesAt-Removes id s other r (inr (e, known, count, at)) = at

-- Two changes of one peer, one after the other.
pub ChangesAt-then :
    (id : Bytes) (f g : Option Peer → Option Peer) (s s' s'' : Store) (other : Bytes)
    → ChangesAt id f s s' id
    → ChangesAt id f s s' other
    → ChangesAt id g s' s'' other
    → ChangesAt id (λ o. g (f o)) s s'' other
ChangesAt-then id f g s s' s'' other self first second =
    second ∙ elim (Bool-cases (is_same_id id other)) [
      | inl same ↦ rw (same, self, is_same_id_refl id)
      | inr differ ↦ rw (differ, first, differ)
    ]

Tracks-zero : (k : ℤ) (n : ℕ) → Tracks k n → at_least_zero (sub_nat k n) ≡ pos 0
Tracks-zero (pos k) n t = ground arith
Tracks-zero (negsuc k) n t = absurd t

recount_zero :
    (o : Option Peer) (n : ℕ)
    → TracksAt o n
    → Option.map (recount (λ k. at_least_zero (sub_nat k n))) o
      ≡ Option.map (recount (λ k. pos 0)) o
recount_zero none n t = refl
recount_zero (some p) n t =
    ap (λ k. some (record p { ghost_count = k })) (Tracks-zero p.ghost_count n t)

get_empty : (s : Store) (id : Bytes) → is_empty (normalize_id id) ≡ true → view s id ≡ none
unfolding state_get_peer
get_empty s id e = rw e

view-mid :
    (s s' : Store) (id : Bytes)
    → s'.peers ≡ s.peers
    → s'.peer_count ≡ s.peer_count
    → view s' id ≡ view s id
unfolding state_get_peer
view-mid s s' id p q = rw (p, q)

-- Delivering sets the counter of the peer to 0, and changes nothing else in the table.
pub deliver-ChangesAt :
    (to_id other : Bytes) (now : ℤ) {s : Store} (q : EventQueue)
    → IsValid s
    → IsTracked s
    → ChangesAt to_id
        (Option.map (recount (λ k. pos 0)))
        s
        (state_deliver_ghost_messages to_id now s q).1
        other
deliver-ChangesAt to_id other now {s} q v t = elim (Bool-cases (is_empty (normalize_id to_id))) [
  | inl e ↦ rw (deliver_empty to_id now s q e) (view_self s to_id other ∙ rw (get_empty s to_id e))
  | inr e ↦
      let n = (deliver_due (normalize_id to_id) now s.ghost_count s.ghosts q).1 in
      let change : ℤ → ℤ = λ k. at_least_zero (sub_nat k n) in
      let mid : Store =
        with_ghosts (deliver_due (normalize_id to_id) now s.ghost_count s.ghosts q).0 s.ghost_count
          s in
      let all : n ≡ state_get_ghost_count s to_id =
        delivered-count (normalize_id to_id) now s.ghost_count s.ghosts q
        ∙ sym (count_some s to_id e) in
      let normal : view mid (normalize_id to_id) ≡ view s to_id =
        view_same mid (normalize_id to_id) to_id
          (is_same_normal to_id to_id ∙ is_same_id_refl to_id)
        ∙ view-mid s mid to_id refl refl in
      rw (deliver_some to_id now s q e) (
        ap (λ s'. view s' other) (adjust-with_peer to_id change mid e)
        ∙ ChangesAt-Rewrites (normalize_id to_id) (recount change) mid other
            (with_peer (normalize_id to_id) (recount change) mid)
            (view_self mid (normalize_id to_id) other)
            (with_peer-Rewrites (normalize_id to_id) (recount change) other (λ p. refl)
              (delivered_mid-IsValid to_id now q v))
        ∙ rw (
          normal,
          view-mid s mid other refl refl,
          is_same_normal to_id other,
          recount_zero (view s to_id) n (subst (TracksAt (view s to_id)) (sym all) (t to_id)),
        ))
]
