-- ===== src/State/Tracked.antt =====
-- The counter `ghost_count` of a peer against the messages that wait for it.
use orcashi.Prelude.{
  ℕ, ◌+◌, ◌≤◌, ◌≡◌, refl, sym, subst, ℤ, pos, negsuc, add_nat, sub_nat, at_least_zero, Option, none,
  some, arith, Code, Bool-cases, Option-cases, inl, inr,
}
use orcashi.CString.Text.{Bytes}
use orcashi.State.Types.{Peer, Store}
use orcashi.State.Ids.{is_same_id}
use orcashi.State.Peers.{state_get_peer}
use orcashi.State.Fields.{with_peer}
use orcashi.State.Ghosts.{state_get_ghost_count}
use orcashi.State.Valid.{IsValid}
use orcashi.State.View.{view, Rewrites, with_peer-Rewrites}
use orcashi.State.Counts.{count_same}

-- The counter is a number of messages that wait: it is not negative, and not more than there are.
abbrev pub Tracks : ℤ → ℕ → Type 0
Tracks (pos k) n = k ≤ n
Tracks (negsuc k) n = ⊥

abbrev pub TracksAt : Option Peer → ℕ → Type 0
TracksAt none n = Unit {0}
TracksAt (some p) n = Tracks p.ghost_count n

-- So it is for every peer of the table.
abbrev pub IsTracked : Store → Type 0
IsTracked s = (id : Bytes) → TracksAt (view s id) (state_get_ghost_count s id)

Tracks-more : (k : ℤ) (m n : ℕ) → m ≤ n → Tracks k m → Tracks k n
Tracks-more (pos k) m n h t = omega arith
Tracks-more (negsuc k) m n h t = t

pub TracksAt-more : (o : Option Peer) (m n : ℕ) → m ≤ n → TracksAt o m → TracksAt o n
TracksAt-more none m n h t = tt
TracksAt-more (some p) m n h t = Tracks-more p.ghost_count m n h t

pub Tracks-add_one : (k : ℤ) (n : ℕ) → Tracks k n → Tracks (add_nat k 1) (n + 1)
Tracks-add_one (pos k) n t = omega arith
Tracks-add_one (negsuc k) n t = absurd t

pub Tracks-delivered : (k : ℤ) (n : ℕ) → Tracks k n → Tracks (at_least_zero (sub_nat k n)) 0
Tracks-delivered (pos k) n t = ground arith
Tracks-delivered (negsuc k) n t = absurd t

-- Where one peer is rewritten and the number of its messages changes along.
pub Rewrites-TracksAt :
    {s : Store} (id : Bytes) (write : Peer → Peer) (other : Bytes) (r : Code × Store)
    → IsTracked s
    → Rewrites id write other s r
    → state_get_ghost_count r.1 other ≡ state_get_ghost_count s other
    → ((p : Peer) → (write p).ghost_count ≡ p.ghost_count)
    → TracksAt (view r.1 other) (state_get_ghost_count r.1 other)
Rewrites-TracksAt {s} id write other r t (inl (e, at, same)) c keeps =
    subst (λ s'. TracksAt (view s' other) (state_get_ghost_count s' other)) (sym same) (t other)
Rewrites-TracksAt {s} id write other r t (inr (p, at, e, now)) c keeps =
    rw (now, c)
      (elim (Bool-cases (is_same_id id other)) [
        | inr differ ↦ rw differ (t other)
        | inl same ↦
            rw (same, keeps p, ← count_same s id other same)
              (subst (λ o. TracksAt o (state_get_ghost_count s id)) at (t id))
      ])

pub count_of_slots :
    (s s' : Store) (id : Bytes)
    → s'.ghosts ≡ s.ghosts
    → s'.ghost_count ≡ s.ghost_count
    → state_get_ghost_count s' id ≡ state_get_ghost_count s id
unfolding state_get_ghost_count
count_of_slots s s' id p q = rw (p, q)

pub with_peer-ghosts :
    (id : Bytes) (write : Peer → Peer) (s : Store)
    → ((with_peer id write s).1.ghosts ≡ s.ghosts)
      × ((with_peer id write s).1.ghost_count ≡ s.ghost_count)
unfolding with_peer
with_peer-ghosts id write s = elim (Option-cases (state_get_peer s id)) [
  | inl e ↦ rw (e, with_peer) (refl, refl)
  | inr (i, e) ↦ rw (e, with_peer) (refl, refl)
]

-- An operation on one peer that leaves its id and its counter.
pub with_peer-IsTracked :
    {s : Store} (id : Bytes) (write : Peer → Peer)
    → ((p : Peer) → (write p).id ≡ p.id)
    → ((p : Peer) → (write p).ghost_count ≡ p.ghost_count)
    → IsValid s
    → IsTracked s
    → IsTracked (with_peer id write s).1
with_peer-IsTracked {s} id write keeps_id keeps_count v t other =
    Rewrites-TracksAt id write other (with_peer id write s) t
      (with_peer-Rewrites id write other keeps_id v)
      (count_of_slots s (with_peer id write s).1 other (with_peer-ghosts id write s).0
        (with_peer-ghosts id write s).1)
      keeps_count
