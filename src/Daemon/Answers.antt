-- ===== src/Daemon/Answers.antt =====
-- What answering a request to be friends comes to, through the daemon, the P2P manager and the state manager.
use mathlib.Core.Option
use orcashi.Prelude.{
  ℕ, ◌≡◌, refl, ◌⊎◌, inl, inr, ℤ, pos, negsuc, Bool, true, false, not, Option, none, some, [], ◌∷◌,
  ◌++◌, if◌then◌else◌, Bool-cases,
}
use orcashi.CString.Text.{Bytes, codes, fit}
use orcashi.CString.Memory.{Run, done, Returns, Returns-done, Returns-then}
use orcashi.State.Types.{Peer, Store, friend}
use orcashi.State.Ids.{is_same_id}
use orcashi.State.Peers.{peer_at, updated_peer, state_get_peer}
use orcashi.State.Ghosts.{state_get_ghost_count}
use orcashi.State.View.{view}
use orcashi.State.Waiting.{recount}
use orcashi.State.Effect.{ChangesAt}
use orcashi.Events.World.{World, remove_peer}
use orcashi.Events.Effects.{effects, effect, calls-ChangesAt}
use orcashi.P2p.Types.{Manager}
use orcashi.Daemon.Types.{Daemon, Setting, Reply, fail}
use orcashi.Daemon.Friends.{with_manager, store_peer, is_request, on_request, daemon_cmd_reject}
use orcashi.Daemon.Keeps.{IsDaemon}

-- Whether the peer that a view shows asks to be a friend.
abbrev pub is_asking : Option Peer → Bool
is_asking none = false
is_asking (some p) = is_request p.state

abbrev pub store_of : Daemon → Store
store_of d = d.manager.world.store

module _ (P : Reply × Manager → Type 0) (peer_id : Bytes) (f : ℕ → Run (Reply × Manager))
    (m : Manager) where
  answered :
      (o : Option ℕ)
      → (is_asking (Option.map (peer_at m.world.store) o) ≡ false
          → (text : Bytes) → P (fail text, m))
      → ((i : ℕ) → is_asking (Option.map (peer_at m.world.store) o) ≡ true → Returns P (f i))
      → Returns P (elim o [
        | none ↦ done (fail (codes "ERROR: Peer " ++ (peer_id ++ codes " not found\n")), m)
        | some i ↦
            if not (is_request (store_peer m i).state)
            then done (fail (codes "ERROR: No pending request from " ++ (peer_id ++ codes "\n")), m)
            else f i
      ])
  answered none refused asked =
      Returns-done _ (refused refl (codes "ERROR: Peer " ++ (peer_id ++ codes " not found\n")))
  answered (some i) refused asked = elim (Bool-cases (is_request (store_peer m i).state)) [
    | inl asking ↦ rw asking (asked i asking)
    | inr other ↦ rw other (
        Returns-done _
          (refused other (codes "ERROR: No pending request from " ++ (peer_id ++ codes "\n"))))
  ]

  on_request-Returns :
      (is_asking (view m.world.store peer_id) ≡ false → (text : Bytes) → P (fail text, m))
      → ((i : ℕ) → is_asking (view m.world.store peer_id) ≡ true → Returns P (f i))
      → Returns P (on_request peer_id f m)
  unfolding on_request
  on_request-Returns refused asked = answered (state_get_peer m.world.store peer_id) refused asked

-- What rejecting leaves: an error changes nothing; else the peer asked, and is gone, and no other peer is changed.
abbrev pub Rejects : Bytes → Bytes → Daemon → Reply × Daemon → Type 0
Rejects peer_id other d (r, d1) =
    ((is_asking (view (store_of d) peer_id) ≡ false) × (r.code ≡ negsuc 0) × (d1 ≡ d))
    ⊎ ((is_asking (view (store_of d) peer_id) ≡ true)
        × (r.code ≡ pos 0)
        × (view (store_of d1) other
            ≡ (if is_same_id peer_id other then none else view (store_of d) other)))

-- `reject` always comes to an end. Without a pending request of the peer it fails and changes nothing; else it succeeds, the peer is
-- gone, under every spelling of its identifier, and every other peer is as before.
pub reject-Rejects :
    (s : Setting) (args other : Bytes) (d : Daemon)
    → IsDaemon d
    → Returns (Rejects (fit 64 args) other d) (daemon_cmd_reject s (some args) d)
unfolding daemon_cmd_reject effects effect
reject-Rejects s args other d v =
    let id = fit 64 args in
    Returns-then _ (λ (r, m). Rejects id other d (r, with_manager d m)) _ _
      (on_request-Returns _ id _ d.manager (λ quiet text. inl (quiet, refl, refl))
        λ i asking. Returns-done _ (
          inr (
            asking,
            refl,
            calls-ChangesAt s.host.now (remove_peer id ∷ []) id other (refl, tt) v.sound,
          )))
      λ (r, m) h. Returns-done _ h

-- Two stores with the peer `id` a friend since `now` in the second, and all else the same.
abbrev Befriended : Bytes → ℤ → Store → Store → Type 0
Befriended id now s s' =
    (other : Bytes) → ChangesAt id (Option.map (updated_peer friend now)) s s' other

-- What accepting leaves: an error changes nothing; else the peer asked, is a friend since now, no message waits for it, and no other peer
-- is changed.
abbrev pub Accepted : ℤ → Bytes → Bytes → Daemon → Reply × Daemon → Type 0
Accepted now peer_id other d (r, d1) =
    ((is_asking (view (store_of d) peer_id) ≡ false) × (r.code ≡ negsuc 0) × (d1 ≡ d))
    ⊎ ((is_asking (view (store_of d) peer_id) ≡ true)
        × (r.code ≡ pos 0)
        × (state_get_ghost_count (store_of d1) peer_id ≡ 0)
        × (view (store_of d1) other ≡ (
            if is_same_id peer_id other
            then Option.map (λ p. recount (λ k. pos 0) (updated_peer friend now p))
                (view (store_of d) peer_id)
            else view (store_of d) other)))

abbrev AcceptedBy : ℤ → Bytes → Bytes → Daemon → Reply × Manager → Type 0
AcceptedBy now peer_id other d (r, m) = Accepted now peer_id other d (r, with_manager d m)
