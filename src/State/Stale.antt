-- ===== src/State/Stale.antt =====
-- What a new peer inherits from the slot that it is given.
use orcashi.Prelude.{
  ℕ, zero, suc, ◌+◌, ◌-◌, ◌≤◌, ◌≡◌, ◌≢◌, refl, ap, ◌∙◌, inl, inr, ℤ, none, some, List, arith,
  get_or, set, get_or-set_ne, ok,
}
use orcashi.CString.Text.{Bytes}
use orcashi.State.Types.{Peer, zero_peer, Store}
use orcashi.State.Ids.{normalize_id, is_same_id_refl}
use orcashi.State.Peers.{peer_at, shift_left, state_add_peer, state_remove_peer, fresh_peer}
use orcashi.State.Valid.{IsValid, remove_peer-IsValid}
use orcashi.State.View.{view, sought, empty, absent, present}
use orcashi.State.Change.{Adds, add_peer-Adds, remove_known}

-- The shift writes to slots `j` to `j + n - 1`, and to none behind them.
get_or-shift_left :
    (n j k : ℕ) (ps : List Peer)
    → j + n ≤ k
    → get_or (shift_left n j ps) k zero_peer ≡ get_or ps k zero_peer
unfolding shift_left
get_or-shift_left zero j k ps h = refl
get_or-shift_left (suc n) j k ps h =
    get_or-shift_left n (suc j) k (set ps j (get_or ps (suc j) zero_peer)) (omega arith)
    ∙ get_or-set_ne ps (get_or ps (suc j) zero_peer) zero_peer (omega arith)

-- After a removal the slot behind the last peer still holds the peer that was last.
slot-removed :
    {s : Store} (id : Bytes)
    → IsValid s
    → view s id ≢ none
    → (peer_at (state_remove_peer id s).1 (state_remove_peer id s).1.peer_count
        ≡ peer_at s (s.peer_count - 1))
slot-removed {s} id v known = elim (sought id v) [
  | empty e at ↦ absurd (known at)
  | absent e f at ↦ absurd (known at)
  | present i e f lt same at ↦
      rw (remove_known id s i e f)
        (get_or-shift_left (s.peer_count - 1 - i) i (s.peer_count - 1) s.peers (omega arith))
]

-- A peer that is added after another was removed gets its `friend_since`, `request_sent_at` and
-- `request_received_at` from the peer that stood last in the table before the removal, although it
-- was never a friend and no request was made: `state_add_peer` does not reset these fields.
stale_friend_since :
    {s : Store} (gone id : Bytes) (now : ℤ)
    → IsValid s
    → view s gone ≢ none
    → view (state_remove_peer gone s).1 id ≡ none
    → (state_add_peer id now (state_remove_peer gone s).1).0 ≡ ok
    → let last = peer_at s (s.peer_count - 1) in
      (p : Peer) × (view (state_add_peer id now (state_remove_peer gone s).1).1 id ≡ some p)
      × (p.friend_since ≡ last.friend_since)
      × (p.request_sent_at ≡ last.request_sent_at)
      × (p.request_received_at ≡ last.request_received_at)
stale_friend_since {s} gone id now v known unknown done =
    from_Adds (add_peer-Adds id now id (remove_peer-IsValid gone v))
  where
    s' : Store
    s' = (state_remove_peer gone s).1

    slot : peer_at s' s'.peer_count ≡ peer_at s (s.peer_count - 1)
    slot = slot-removed gone v known

    from_Adds :
        Adds id now id s' (state_add_peer id now s')
        → let last = peer_at s (s.peer_count - 1) in
          (p : Peer) × (view (state_add_peer id now s').1 id ≡ some p)
          × (p.friend_since ≡ last.friend_since)
          × (p.request_sent_at ≡ last.request_sent_at)
          × (p.request_received_at ≡ last.request_received_at)
    from_Adds (inl (e, same, why)) = absurd (cc)
    from_Adds (inr (inl (e, same, there))) = absurd (there unknown)
    from_Adds (inr (inr (e, new, count, at))) = (
      fresh_peer (peer_at s' s'.peer_count) (normalize_id id) now,
      at ∙ rw (is_same_id_refl id),
      ap (λ q. q.friend_since) slot,
      ap (λ q. q.request_sent_at) slot,
      ap (λ q. q.request_received_at) slot,
    )
